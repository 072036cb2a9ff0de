-- ===== src/Tests/Images.antt =====
-- The theorems on superblocks and verity tables at small images.
use ssam.Prelude.{
  ℕ, ◌^◌, ◌≡◌, refl, Bool, true, none, some, List, [], ◌∷◌, ok, arith, ◌≤◌, length, take,
}
use ssam.Verity.{
  VeritySuperBlock, PackageFsVerityInfo, from_verity_image, get_algorithm, is_utf8,
  contains_whitespace, take_until_nul, get_salt, hex, resolve_table, decimal, build_table_params,
}
use ssam.Verity.Lines.{fields, has_special, has_hidden}
use ssam.Verity.Fields.{expected, resolve_table-fields, from_verity_image_shifts}
use ssam.Superblock.{SuperBlock, erofs_block, Image, new, get_superblock, verify, block_size}
use ssam.Superblock.Bounds.{exponent, new-block_size}

-- The algorithm is "sha1".
abbrev sb : VeritySuperBlock
sb = record {
  version = 1;
  algorithm = 115 ∷ 104 ∷ 97 ∷ 49 ∷ 0 ∷ 0 ∷ [];
  data_block_size = 4096;
  hash_block_size = 4096;
  data_blocks = 2;
  salt_size = 2;
  salt = 171 ∷ 5 ∷ 0 ∷ [];
}

abbrev unnamed : VeritySuperBlock
unnamed = record sb { algorithm = 0 ∷ 0 ∷ [] }

abbrev root_hash : List ℕ
root_hash = 99 ∷ 48 ∷ []

abbrev dev : List ℕ
dev = 47 ∷ 100 ∷ []

abbrev salt_text : List ℕ
salt_text = 97 ∷ 98 ∷ 48 ∷ 53 ∷ []

abbrev info : PackageFsVerityInfo
info = record {
  data_size = 8192;
  hash_size = 4096;
  table_params = build_table_params 1 4096 4096 2 3 (115 ∷ 104 ∷ 97 ∷ 49 ∷ []) root_hash salt_text;
  hash_offset = 8192;
}

image_read : from_verity_image (some sb) 8192 4096 8192 root_hash ≡ ok info
unfolding from_verity_image get_algorithm is_utf8 contains_whitespace take_until_nul get_salt length
    take hex
image_read = refl

no_spaces : (has_special root_hash ≡ Bool.false) × (has_special dev ≡ Bool.false)
unfolding has_special
no_spaces = (refl, refl)

resolve_table-fields_example :
    (table : List ℕ) × (salt : List ℕ) × (resolve_table info dev ≡ ok table)
    × (get_salt sb ≡ ok salt)
    × (fields table ≡ expected sb 8192 dev root_hash salt)
resolve_table-fields_example =
    resolve_table-fields sb 8192 4096 8192 root_hash dev {info = info} image_read
      (λ e. unfold take_until_nul in cc) (unfold has_hidden take_until_nul in refl) (omega arith)
      no_spaces.0 no_spaces.1 (λ e. cc) (λ e. cc)

no_algorithm : take_until_nul unnamed.algorithm ≡ []
unfolding take_until_nul
no_algorithm = refl

salt_fits : unnamed.salt_size ≤ length unnamed.salt
unfolding length
salt_fits = omega arith

from_verity_image_shifts_example :
    (read : PackageFsVerityInfo) × (table : List ℕ) × (from_verity_image
        (some unnamed)
        8192
        4096
        8192
        root_hash
      ≡ ok read)
    × (resolve_table read dev ≡ ok table)
    × (fields table
        ≡ decimal 1
          ∷ dev
          ∷ dev
          ∷ decimal 4096
          ∷ decimal 4096
          ∷ decimal 2
          ∷ decimal 3
          ∷ root_hash
          ∷ hex (take 2 unnamed.salt)
          ∷ [])
from_verity_image_shifts_example =
    from_verity_image_shifts unnamed 8192 4096 8192 root_hash dev no_algorithm (omega arith)
      salt_fits (omega arith) (omega arith) (omega arith) no_spaces.0 no_spaces.1 (λ e. cc)
      (λ e. cc)

abbrev erofs_image : Image
erofs_image = record {
  open_file = true;
  seek = true;
  decode_erofs = some (record { magic = 0xe0f5e1e2; blkszbits = 12 });
  decode_ext4 = none;
}

abbrev erofs_sb : SuperBlock
erofs_sb = erofs_block (record { magic = 0xe0f5e1e2; blkszbits = 12 })

found : new erofs_image ≡ ok erofs_sb
unfolding new get_superblock
found = refl

sized : block_size erofs_sb ≡ ok 4096
unfolding block_size
sized = refl

new-block_size_example :
    (verify erofs_sb ≡ true)
    × (4096 ≡ 2 ^ exponent erofs_sb)
    × (exponent erofs_sb ≤ 16)
    × (4096 ≤ 65536)
new-block_size_example = new-block_size erofs_image erofs_sb 4096 found sized
