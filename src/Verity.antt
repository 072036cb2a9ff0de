-- ===== src/Verity.antt =====
-- The dm-verity table of a package's filesystem: what is read from the superblock when a package is
-- built (libssam/src/ssam_package/verity.rs) and what the daemon gives to the kernel
-- (`PackageFsVerityInfo` of libssam/src/ssam_package.rs). A Rust `String` is its UTF-8, a list of
-- bytes.
pub mod Lines
pub mod Fields
use ssam.Prelude.{
  ℕ, zero, suc, ◌+◌, ◌/◌, ◌%◌, ◌^◌, Bool, true, false, not, ◌&&◌, ◌||◌, Option, none, some, List,
  [], ◌∷◌, ◌++◌, Result, ok, err, ltb, leb, ◌==◌, if◌then◌else◌, ensure, ok_or, ◌>>=◌, ◌>>◌, length,
  take,
}

-- The fields that are read; the algorithm and the salt are arrays of bytes.
pub record VeritySuperBlock : Type 0 where
  pub version : ℕ
  pub algorithm : List ℕ
  pub data_block_size : ℕ
  pub hash_block_size : ℕ
  pub data_blocks : ℕ
  pub salt_size : ℕ
  pub salt : List ℕ

pub record PackageFsVerityInfo : Type 0 where
  pub data_size : ℕ
  pub hash_size : ℕ
  pub table_params : List ℕ
  pub hash_offset : ℕ

pub data VerityError : Type 0 where
  not_utf8 whitespace_in_algorithm unreadable_super_block zero_block_size missing_fields :
      VerityError
  salt_too_long : ℕ → VerityError

-- How many bytes follow the first one of a character, and the bounds of the next.
abbrev lead : ℕ → Option (ℕ × ℕ × ℕ)
lead b =
    if ltb b 0x80
    then some (0, 0x80, 0xbf)
    else if ltb b 0xc2
    then none
    else if ltb b 0xe0
    then some (1, 0x80, 0xbf)
    else if b == 0xe0
    then some (2, 0xa0, 0xbf)
    else if b == 0xed
    then some (2, 0x80, 0x9f)
    else if ltb b 0xf0
    then some (2, 0x80, 0xbf)
    else if b == 0xf0
    then some (3, 0x90, 0xbf)
    else if ltb b 0xf4
    then some (3, 0x80, 0xbf)
    else if b == 0xf4
    then some (3, 0x80, 0x8f)
    else none

-- `String::from_utf8` accepts the bytes; `n` bytes of a character are still to come.
valid_from : ℕ → ℕ → ℕ → List ℕ → Bool
valid_from zero lo hi [] = true
valid_from (suc n) lo hi [] = false
valid_from (suc n) lo hi (b ∷ bs) = (leb lo b && leb b hi) && valid_from n 0x80 0xbf bs
valid_from zero lo hi (b ∷ bs) = elim (lead b) [
  | none ↦ false
  | some (n, lo', hi') ↦ valid_from n lo' hi' bs
]

unfoldable pub is_utf8 : List ℕ → Bool
unfolding valid_from
is_utf8 s = valid_from 0 0x80 0xbf s

abbrev pub ascii_whitespace : ℕ → Bool
ascii_whitespace b = (leb 9 b && leb b 13) || b == 0x20

-- A character of two or three bytes for which `char::is_whitespace` holds stands at the front.
wide_whitespace : List ℕ → Bool
wide_whitespace [] = false
wide_whitespace (b ∷ []) = false
wide_whitespace (b ∷ c ∷ []) = b == 0xc2 && (c == 0x85 || c == 0xa0)
wide_whitespace (b ∷ c ∷ d ∷ bs) =
    (b == 0xc2 && (c == 0x85 || c == 0xa0))
    || (b == 0xe1 && (c == 0x9a && d == 0x80))
    || (b == 0xe2
        && (c == 0x80 && ((leb 0x80 d && leb d 0x8a) || d == 0xa8 || d == 0xa9 || d == 0xaf)))
    || (b == 0xe2 && (c == 0x81 && d == 0x9f))
    || (b == 0xe3 && (c == 0x80 && d == 0x80))

unfoldable pub contains_whitespace : List ℕ → Bool
unfolding wide_whitespace
contains_whitespace [] = false
contains_whitespace (b ∷ bs) =
    (ascii_whitespace b || wide_whitespace (b ∷ bs)) || contains_whitespace bs

-- `take_while(|c| *c != 0)`
unfoldable pub take_until_nul : List ℕ → List ℕ
take_until_nul [] = []
take_until_nul (b ∷ bs) = let rest = take_until_nul bs in if b == 0 then [] else b ∷ rest

unfoldable pub get_algorithm : VeritySuperBlock → Result VerityError (List ℕ)
get_algorithm sb = do
  ensure (is_utf8 (take_until_nul sb.algorithm)) not_utf8
  ensure (not (contains_whitespace (take_until_nul sb.algorithm))) whitespace_in_algorithm
  ok (take_until_nul sb.algorithm)

abbrev pub hex_digit : ℕ → ℕ
hex_digit d = if ltb d 10 then 48 + d else 87 + d

-- `{byte:02x}` for each byte
unfoldable pub hex : List ℕ → List ℕ
hex [] = []
hex (b ∷ bs) = hex_digit (b / 16) ∷ hex_digit (b % 16) ∷ hex bs

unfoldable pub get_salt : VeritySuperBlock → Result VerityError (List ℕ)
get_salt sb = do
  ensure (leb sb.salt_size (length sb.salt)) (salt_too_long sb.salt_size)
  ok (if sb.salt_size == 0 then 45 ∷ [] else hex (take sb.salt_size sb.salt))

-- `Display` of an unsigned number. A turn divides by ten, so the number itself bounds the turns.
decimal_from : ℕ → ℕ → List ℕ → List ℕ
decimal_from zero n out = (48 + n % 10) ∷ out
decimal_from (suc turns) n out =
    let rest = decimal_from turns (n / 10) ((48 + n % 10) ∷ out) in
    if ltb n 10 then (48 + n % 10) ∷ out else rest

unfoldable pub decimal : ℕ → List ℕ
unfolding decimal_from
decimal n = decimal_from n n []

abbrev pub space : ℕ
space = 0x20

-- `format!("{version} {data_block_size} …")`
unfoldable pub build_table_params : ℕ → ℕ → ℕ → ℕ → ℕ → List ℕ → List ℕ → List ℕ → List ℕ
build_table_params version data_block_size hash_block_size data_blocks hash_start_block algorithm
      root_hash salt =
    decimal version
    ++ (space
        ∷ (decimal data_block_size
            ++ (space
                ∷ (decimal hash_block_size
                    ++ (space
                        ∷ (decimal data_blocks
                            ++ (space
                                ∷ (decimal hash_start_block
                                    ++ (space
                                        ∷ (algorithm
                                            ++ (space ∷ (root_hash ++ (space ∷ salt)))))))))))))

-- `split_once(' ')`
abbrev pub push_first : ℕ → Option (List ℕ × List ℕ) → Option (List ℕ × List ℕ)
push_first b none = none
push_first b (some (s, r)) = some (b ∷ s, r)

unfoldable pub split_once : List ℕ → Option (List ℕ × List ℕ)
split_once [] = none
split_once (b ∷ bs) =
    let rest = split_once bs in if b == space then some ([], bs) else push_first b rest

abbrev pub insert_device : List ℕ → List ℕ × List ℕ → List ℕ
insert_device dev (version, rest) = version ++ (space ∷ (dev ++ (space ∷ (dev ++ (space ∷ rest)))))

unfoldable pub resolve_table : PackageFsVerityInfo → List ℕ → Result VerityError (List ℕ)
resolve_table info dev_path = do
  parts ← ok_or (split_once info.table_params) missing_fields
  ok (insert_device dev_path parts)

-- `none` stands for a superblock that cannot be read.
unfoldable pub from_verity_image :
    Option VeritySuperBlock → ℕ → ℕ → ℕ → List ℕ → Result VerityError PackageFsVerityInfo
from_verity_image image data_size hash_size hash_offset root_hash = do
  sb ← ok_or image unreadable_super_block
  algorithm ← get_algorithm sb
  salt ← get_salt sb
  ensure (not (sb.data_block_size == 0) && not (sb.hash_block_size == 0)) zero_block_size
  ok (record {
    data_size = data_size;
    hash_size = hash_size;
    table_params =
        build_table_params sb.version sb.data_block_size sb.hash_block_size sb.data_blocks
          ((data_size / sb.data_block_size + 1) % 2 ^ 64) algorithm root_hash salt;
    hash_offset = hash_offset;
  })
