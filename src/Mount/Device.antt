-- ===== src/Mount/Device.antt =====
-- A dm-verity device (ssamd/src/dm/verity_device.rs); the ioctls of ssamd/src/dm/dm_control.rs are
-- the record `DeviceMapper`.
use Prim.Native.String.{◌++◌}
use ssam.Prelude.{
  ℕ, ◌/◌, Bool, true, false, Option, none, some, List, [], ◌∷◌, String, Result, ok, err, str_eq,
  if◌then◌else◌, ok_or, ◌>>=◌,
}
use ssam.Verity.{PackageFsVerityInfo, VerityError, resolve_table}

pub record DmDevice : Type 0 where
  pub minor : ℕ
  pub name : String

-- Start, length in sectors, type, and the table.
pub record DmTargetInfo : Type 0 where
  pub sector_start : ℕ
  pub sector_size : ℕ
  pub target_type : String
  pub params : List ℕ

pub data DmError : Type 0 where
  busy other_error : DmError

pub data DeviceError : Type 0 where
  control_failed no_sector_size table_failed already_exists busy_but_absent list_failed
        create_failed load_failed resume_failed :
      DeviceError

-- The kernel's device mapper in a state `S`; a path as bytes; the size of a device's sectors.
pub record DeviceMapper (S : Type 0) : Type 0 where
  pub open_control : S → Bool
  pub create_device : String → S → Result DmError DmDevice × S
  pub list_devices : S → Option (List String)
  pub load_table : String → DmTargetInfo → S → Bool × S
  pub resume_device : String → S → Bool × S
  pub remove_device : String → S → Bool × S
  pub ioctl_blksszget : S → String → Option ℕ
  pub bytes_of : String → List ℕ
  pub display : ℕ → String

-- A state that is passed on: the value of a call, or its error.
abbrev pub and_then :
    {S E A B : Type 0} → Result E A × S → (A → S → Result E B × S) → Result E B × S
and_then (ok a, s) k = k a s
and_then (err e, s) k = (err e, s)

-- A call that only succeeds or fails.
abbrev pub try : {S E : Type 0} → Bool × S → E → Result E (Unit {0}) × S
try (true, s) e = (ok tt, s)
try (false, s) e = (err e, s)

abbrev pub listed : String → List String → Bool
listed name [] = false
listed name (d ∷ ds) = if str_eq d name then true else listed name ds

module _ {S : Type 0} (dm : DeviceMapper S) where
  open dm use {
    open_control, create_device, list_devices, load_table, resume_device, remove_device,
    ioctl_blksszget, bytes_of, display,
  }

  -- Why a device could not be created.
  abbrev busy_error : Option (List String) → String → DeviceError
  busy_error none name = list_failed
  busy_error (some devices) name = if listed name devices then already_exists else busy_but_absent

  abbrev create_error : DmError → String → S → DeviceError
  create_error busy name s = busy_error (list_devices s) name
  create_error other_error name s = create_failed

  -- After a failure the device is removed; an error of that is only logged.
  abbrev pub clean_up :
      String → DmDevice → Result DeviceError (Unit {0}) × S → Result DeviceError DmDevice × S
  clean_up name device (ok _, s) = (ok device, s)
  clean_up name device (err e, s) = (err e, (remove_device name s).1)

  abbrev pub activate : String → DmTargetInfo → S → Result DeviceError (Unit {0}) × S
  activate name target s =
      and_then (try (load_table name target s) load_failed)
        (λ _ t. try (resume_device name t) resume_failed)

  abbrev pub after_create :
      String → DmTargetInfo → Result DmError DmDevice × S → Result DeviceError DmDevice × S
  after_create name target (err e, s) = (err (create_error e name s), s)
  after_create name target (ok device, s) = clean_up name device (activate name target s)

  unfoldable pub setup : String → DmTargetInfo → S → Result DeviceError DmDevice × S
  setup name target s = after_create name target (create_device name s)

  abbrev resolved : Result VerityError (List ℕ) → Result DeviceError (List ℕ)
  resolved (ok table) = ok table
  resolved (err e) = err table_failed

  unfoldable pub make_target : S → String → PackageFsVerityInfo → Result DeviceError DmTargetInfo
  make_target s dev_path info = do
    size ← ok_or (ioctl_blksszget s dev_path) no_sector_size
    table ← resolved (resolve_table info (bytes_of dev_path))
    ok (record {
      sector_start = 0;
      sector_size = info.data_size / size;
      target_type = "verity";
      params = table;
    })

  abbrev pub with_target :
      String → Result DeviceError DmTargetInfo → S → Result DeviceError DmDevice × S
  with_target name (err e) s = (err e, s)
  with_target name (ok target) s = setup name target s

  abbrev pub with_control :
      Bool → String → String → PackageFsVerityInfo → S → Result DeviceError DmDevice × S
  with_control false name dev_path info s = (err control_failed, s)
  with_control true name dev_path info s = with_target name (make_target s dev_path info) s

  -- `VerityDevice::new`
  unfoldable pub new : String → String → PackageFsVerityInfo → S → Result DeviceError DmDevice × S
  new name dev_path info s = with_control (open_control s) name dev_path info s

  abbrev pub devnode : DmDevice → String
  devnode device = "/dev/dm-" ++ display device.minor

  -- `VerityDevice::drop`
  abbrev pub drop_device : DmDevice → S → S
  drop_device device s = (remove_device device.name s).1
