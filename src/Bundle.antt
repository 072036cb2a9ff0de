-- ===== src/Bundle.antt =====
-- The OCI configuration of a container: `TransientRuntimeConfig::new` (module `oci` of
-- ssamd/src/executor.rs). A specification keeps the parts that the code sets.
pub mod Isolation
use Prim.Native.String.{◌++◌}
use ssam.Prelude
use ssam.Prelude.{
  Bool, true, false, Option, none, some, List, [], ◌∷◌, String, Result, ok, err, if◌then◌else◌,
  ensure, ok_or, ◌>>=◌, ◌>>◌,
}
use ssam.Paths.{join, is_safe_relative_path}
use ssam.Volume.Directory.{strip_root}

pub data NetworkMode : Type 0 where
  host no_network bridge : NetworkMode
  netns : String → NetworkMode

pub data LinuxNamespaceType : Type 0 where
  network : LinuxNamespaceType
  other_type : String → LinuxNamespaceType

pub record LinuxNamespace : Type 0 where
  pub typ : LinuxNamespaceType
  pub path : Option String

pub record Mount : Type 0 where
  pub destination : String
  pub source : Option String
  pub typ : Option String
  pub options : Option (List String)

pub record Linux : Type 0 where
  pub seccomp : Option String
  pub namespaces : Option (List LinuxNamespace)
  pub cgroups_path : Option String

pub record Root : Type 0 where
  pub path : String
  pub readonly : Bool

-- `oci_spec::runtime::Spec`; a process is its AppArmor profile.
pub record Spec : Type 0 where
  pub linux : Option Linux
  pub process : Option (Option String)
  pub root : Option Root
  pub mounts : Option (List Mount)

pub record DataMounts : Type 0 where
  pub root : String
  pub dirs : List String

-- `ContainerBundleSpec`; the seccomp policy is what `build_seccomp_config` makes of its text.
pub record ContainerBundleSpec : Type 0 where
  pub oci_template : Spec
  pub seccomp_policy : Option String
  pub mac_enabled : Bool
  pub network_mode : NetworkMode
  pub cgroups_path : String
  pub package_name : String
  pub mount_point : String
  pub data_mounts : Option DataMounts
  pub bridge_netns_path : Option String

pub data BundleError : Type 0 where
  temporary_directory not_absolute no_bridge_netns not_netns unsafe_bind_mount save_failed :
      BundleError

-- What the system answers: `none` from AppArmor stands for an error. `default_linux` is what the
-- `oci_spec` crate makes by `Linux::default()`.
pub record System : Type 0 where
  pub default_linux : Linux
  pub tempdir : Bool
  pub absolute : String → Option String
  pub verify_is_netns : String → Bool
  pub apparmor_enabled : Option Bool
  pub get_profile : String → Option (Option String)
  pub save : Spec → Bool

abbrev pub is_network : LinuxNamespace → Bool
is_network ns = elim ns.typ [ network ↦ true | other_type _ ↦ false ]

-- `namespaces.retain(|ns| ns.typ() != LinuxNamespaceType::Network)`
unfoldable pub retain_others : List LinuxNamespace → List LinuxNamespace
retain_others [] = []
retain_others (ns ∷ nss) = let rest = retain_others nss in if is_network ns then rest else ns ∷ rest

abbrev pub network_namespace : Option String → List LinuxNamespace
network_namespace path = record { typ = network; path = path } ∷ []

-- The namespace that a mode adds.
added_namespace : System → NetworkMode → Option String → Result BundleError (List LinuxNamespace)
added_namespace system host bridge_netns_path = ok []
added_namespace system no_network bridge_netns_path = ok (network_namespace none)
added_namespace system bridge bridge_netns_path = do
  path ← ok_or bridge_netns_path no_bridge_netns
  ok (network_namespace (some path))
added_namespace system (netns path) bridge_netns_path = do
  ensure (system.verify_is_netns path) not_netns
  ok (network_namespace (some path))

unfoldable pub configure_network_namespace :
    System
    → List LinuxNamespace
    → NetworkMode
    → Option String
    → Result BundleError (List LinuxNamespace)
unfolding added_namespace
configure_network_namespace system namespaces mode bridge_netns_path = do
  more ← added_namespace system mode bridge_netns_path
  ok (Prelude.◌++◌ (retain_others namespaces) more)

unfoldable pub make_bind_mounts : String → List String → Result BundleError (List Mount)
make_bind_mounts data_root [] = ok []
make_bind_mounts data_root (dir ∷ dirs) = do
  ensure (is_safe_relative_path (strip_root dir)) unsafe_bind_mount
  rest ← make_bind_mounts data_root dirs
  ok (
      record {
        destination = join "/" (strip_root dir);
        source = some (join data_root (strip_root dir));
        typ = some "none";
        options = some ("rbind" ∷ "rw" ∷ []);
      }
      ∷ rest)

-- `append_mount`, for each: a template without mounts gets none.
abbrev pub append_mounts : Option (List Mount) → List Mount → Option (List Mount)
append_mounts none more = none
append_mounts (some mounts) more = some (Prelude.◌++◌ mounts more)

-- Bind mounts that cannot be made are only logged.
abbrev bind_mounts_or_none : Result BundleError (List Mount) → List Mount
bind_mounts_or_none (ok mounts) = mounts
bind_mounts_or_none (err _) = []

abbrev pub data_mounts_of : Option DataMounts → List Mount
data_mounts_of none = []
data_mounts_of (some d) = bind_mounts_or_none (make_bind_mounts d.root d.dirs)

abbrev profile_or_default : String → Option (Option String) → Option String
profile_or_default name none = none
profile_or_default name (some none) = some "container-default"
profile_or_default name (some (some _)) = some name

unfoldable pub build_apparmor_profile : System → String → Option String
build_apparmor_profile system package_name = elim system.apparmor_enabled [
  | none ↦ none
  | some false ↦ none
  | some true ↦
      profile_or_default ("ssam-prof-" ++ package_name)
        (system.get_profile ("ssam-prof-" ++ package_name))
]

abbrev pub namespaces_or_new : Linux → List LinuxNamespace
namespaces_or_new l = elim l.namespaces [ none ↦ [] | some namespaces ↦ namespaces ]

-- A template without `linux` gets the crate's default.
abbrev pub template_namespaces : System → Option Linux → List LinuxNamespace
template_namespaces system none = namespaces_or_new system.default_linux
template_namespaces system (some l) = namespaces_or_new l

-- The specification that is saved.
unfoldable pub new : System → ContainerBundleSpec → Result BundleError Spec
new system spec = do
  ensure system.tempdir temporary_directory
  rootfs_path ← ok_or (system.absolute spec.mount_point) not_absolute
  namespaces ←
      configure_network_namespace system (template_namespaces system spec.oci_template.linux)
        spec.network_mode spec.bridge_netns_path
  let saved : Spec = record {
    linux = some (record {
      seccomp = spec.seccomp_policy;
      namespaces = some namespaces;
      cgroups_path = some (join spec.cgroups_path (spec.package_name ++ ".service/container"));
    });
    process =
        some (if spec.mac_enabled then build_apparmor_profile system spec.package_name else none);
    root = some (record { path = rootfs_path; readonly = true });
    mounts = append_mounts spec.oci_template.mounts (data_mounts_of spec.data_mounts);
  }
  ensure (system.save saved) save_failed
  ok saved
