-- ===== src/Superblock.antt =====
-- The superblocks of libssam/src/superblock.rs: which filesystem an image holds, and its block size.
-- Decoding the bytes is the bincode crate's work; the fields that the code reads are kept.
pub mod Bounds
use ssam.Prelude.{
  ℕ, ◌*◌, ◌%◌, ◌^◌, Bool, true, false, Option, none, some, Result, ok, err, leb, ◌==◌, ensure,
  ok_or, ◌>>=◌, ◌>>◌,
}

pub data FsType : Type 0 where
  erofs ext4 : FsType

pub record ErofsSuperBlock : Type 0 where
  pub magic : ℕ
  pub blkszbits : ℕ

pub record Ext4SuperBlock : Type 0 where
  pub s_log_block_size : ℕ
  pub s_magic : ℕ

pub data SuperBlock : Type 0 where
  erofs_block : ErofsSuperBlock → SuperBlock
  ext4_block : Ext4SuperBlock → SuperBlock

pub data SuperBlockError : Type 0 where
  file_open_error seek_error incorrect_superblock invalid_filesystem : SuperBlockError
  no_superblock : SuperBlockError
  block_size_exceeds_maximum : ℕ → SuperBlockError

-- Opening a path, going to offset 1024, and what each decoder makes of the bytes there.
pub record Image : Type 0 where
  pub open_file : Bool
  pub seek : Bool
  pub decode_erofs : Option ErofsSuperBlock
  pub decode_ext4 : Option Ext4SuperBlock

abbrev pub erofs_super_magic : ℕ
erofs_super_magic = 0xe0f5e1e2

abbrev pub ext4_super_magic : ℕ
ext4_super_magic = 0xef53

abbrev pub erofs_max_blkszbits : ℕ
erofs_max_blkszbits = 16

abbrev pub ext4_max_s_log_block_size : ℕ
ext4_max_s_log_block_size = 6

abbrev pub verify : SuperBlock → Bool
verify (erofs_block sb) = sb.magic == erofs_super_magic
verify (ext4_block sb) = sb.s_magic == ext4_super_magic

abbrev pub fs_type : SuperBlock → FsType
fs_type (erofs_block _) = erofs
fs_type (ext4_block _) = ext4

-- `2u32.pow(…)` and `1024u32 << …` in 32 bits
unfoldable pub block_size : SuperBlock → Result SuperBlockError ℕ
block_size (erofs_block sb) = do
  ensure (leb sb.blkszbits erofs_max_blkszbits) (block_size_exceeds_maximum sb.blkszbits)
  ok (2 ^ sb.blkszbits % 2 ^ 32)
block_size (ext4_block sb) = do
  ensure (leb sb.s_log_block_size ext4_max_s_log_block_size)
      (block_size_exceeds_maximum sb.s_log_block_size)
  ok (1024 * 2 ^ sb.s_log_block_size % 2 ^ 32)

abbrev pub decoded_erofs : Option ErofsSuperBlock → Option SuperBlock
decoded_erofs none = none
decoded_erofs (some sb) = some (erofs_block sb)

abbrev pub decoded_ext4 : Option Ext4SuperBlock → Option SuperBlock
decoded_ext4 none = none
decoded_ext4 (some sb) = some (ext4_block sb)

unfoldable pub get_superblock : Image → Option SuperBlock → Result SuperBlockError SuperBlock
get_superblock image decoded = do
  ensure image.open_file file_open_error
  ensure image.seek seek_error
  sb ← ok_or decoded incorrect_superblock
  ensure (verify sb) invalid_filesystem
  ok sb

abbrev or_else :
    Result SuperBlockError SuperBlock
    → Result SuperBlockError SuperBlock
    → Result SuperBlockError SuperBlock
or_else (ok sb) next = ok sb
or_else (err _) (ok sb) = ok sb
or_else (err _) (err _) = err no_superblock

-- `FileSystemSuperBlockBroker::new`
unfoldable pub new : Image → Result SuperBlockError SuperBlock
new image =
    or_else (get_superblock image (decoded_erofs image.decode_erofs))
      (get_superblock image (decoded_ext4 image.decode_ext4))
