-- ===== src/Verity/Fields.antt =====
-- Which fields the kernel finds in a table.
use ssam.Prelude.{
  ℕ, ◌+◌, ◌/◌, ◌%◌, ◌^◌, ◌≡◌, refl, sym, ap, ◌∙◌, false, some, List, [], ◌∷◌, ◌++◌, ok, arith,
  le→leb, inl, inr, Result-cases, ◌≢◌, ◌<◌, ◌≤◌, length, take,
}
use ssam.Verity.{
  VeritySuperBlock, PackageFsVerityInfo, take_until_nul, contains_whitespace, is_utf8,
  get_algorithm, hex, get_salt, decimal, space, build_table_params, split_once, insert_device,
  resolve_table, from_verity_image,
}
use ssam.Verity.Lines.{
  fields, has_special, has_hidden, fields_word, fields-append, fields-space, split_once-append,
  decimal-has_special, fields-decimal, AreBytes, AreBytes-take, hex-has_special,
  take_until_nul-has_special, get_salt-has_special, hex-take-ne-nil, get_salt-ne-nil,
}

build_table_params_split :
    (version dbs hbs blocks start : ℕ) (algorithm root_hash salt dev : List ℕ)
    → has_special dev ≡ false
    → dev ≢ []
    → (split : List ℕ × List ℕ) × (split_once
          (build_table_params version dbs hbs blocks start algorithm root_hash salt)
        ≡ some split)
      × (fields (insert_device dev split)
          ≡ decimal version
            ∷ dev
            ∷ dev
            ∷ decimal dbs
            ∷ decimal hbs
            ∷ decimal blocks
            ∷ decimal start
            ∷ fields (algorithm ++ (space ∷ (root_hash ++ (space ∷ salt)))))
unfolding build_table_params
build_table_params_split version dbs hbs blocks start algorithm root_hash salt dev nd ned = (
  (decimal version, _),
  split_once-append (decimal version) _ (decimal-has_special version),
  fields-decimal version _
      ∙ ap (λ l. decimal version ∷ l)
          (fields-append dev _ nd ned
            ∙ ap (λ l. dev ∷ l)
                (fields-append dev _ nd ned
                  ∙ ap (λ l. dev ∷ l)
                      (fields-decimal dbs _
                        ∙ ap (λ l. decimal dbs ∷ l)
                            (fields-decimal hbs _
                              ∙ ap (λ l. decimal hbs ∷ l)
                                  (fields-decimal blocks _
                                    ∙ ap (λ l. decimal blocks ∷ l) (fields-decimal start _)))))),
)

-- The last two fields.
fields_root :
    (root_hash salt : List ℕ)
    → has_special root_hash ≡ false
    → has_special salt ≡ false
    → root_hash ≢ []
    → salt ≢ []
    → fields (root_hash ++ (space ∷ salt)) ≡ root_hash ∷ salt ∷ []
fields_root root_hash salt nr ns ner nes =
    fields-append root_hash salt nr ner ∙ ap (λ l. root_hash ∷ l) (fields_word salt ns nes)

-- What a table is made of.
from_verity_image_inv :
    (sb : VeritySuperBlock) (data_size hash_size hash_offset : ℕ) (root_hash : List ℕ)
    {info : PackageFsVerityInfo}
    → from_verity_image (some sb) data_size hash_size hash_offset root_hash ≡ ok info
    → (algorithm salt : List ℕ) × (get_algorithm sb ≡ ok algorithm)
      × (get_salt sb ≡ ok salt)
      × (info.table_params
          ≡ build_table_params sb.version sb.data_block_size sb.hash_block_size sb.data_blocks
              ((data_size / sb.data_block_size + 1) % 2 ^ 64)
              algorithm
              root_hash
              salt)
unfolding from_verity_image
from_verity_image_inv sb data_size hash_size hash_offset root_hash e =
    elim (Result-cases (get_algorithm sb)) [
      | inr (t, bad) ↦ absurd (ground (arith, bad))
      | inl (algorithm, ha) ↦ elim (Result-cases (get_salt sb)) [
        | inr (t, bad) ↦ absurd (ground (arith, ha, bad))
        | inl (salt, hs) ↦ (algorithm, salt, ha, hs, ground (arith, ha, hs))
      ]
    ]

-- The ten fields of a table for the kernel.
abbrev pub expected : VeritySuperBlock → ℕ → List ℕ → List ℕ → List ℕ → List (List ℕ)
expected sb data_size dev root_hash salt =
    decimal sb.version
    ∷ dev
    ∷ dev
    ∷ decimal sb.data_block_size
    ∷ decimal sb.hash_block_size
    ∷ decimal sb.data_blocks
    ∷ decimal ((data_size / sb.data_block_size + 1) % 2 ^ 64)
    ∷ take_until_nul sb.algorithm
    ∷ root_hash
    ∷ salt
    ∷ []

-- Whatever else stands in the superblock, if a table is made of it and its algorithm is not empty and
-- holds no backslash and no byte 0xa0, then what the daemon gives to the kernel has ten fields, each
-- in its own place. Fields end at runs of whitespace, and a backslash takes the next byte. The root
-- hash and the device path must not be empty and hold none of these bytes.
pub resolve_table-fields :
    (sb : VeritySuperBlock) (data_size hash_size hash_offset : ℕ) (root_hash dev : List ℕ)
    {info : PackageFsVerityInfo}
    → from_verity_image (some sb) data_size hash_size hash_offset root_hash ≡ ok info
    → take_until_nul sb.algorithm ≢ []
    → has_hidden (take_until_nul sb.algorithm) ≡ false
    → AreBytes sb.salt
    → has_special root_hash ≡ false
    → has_special dev ≡ false
    → root_hash ≢ []
    → dev ≢ []
    → (table salt : List ℕ) × (resolve_table info dev ≡ ok table)
      × (get_salt sb ≡ ok salt)
      × (fields table ≡ expected sb data_size dev root_hash salt)
unfolding from_verity_image resolve_table
resolve_table-fields sb data_size hash_size hash_offset root_hash dev e named plain bytes nr nd ner
      ned =
    let (algorithm, salt, ha, hs, made) =
      from_verity_image_inv sb data_size hash_size hash_offset root_hash e in
    let (same, na) = take_until_nul-has_special sb ha plain in
    let (parts, split, found) =
      build_table_params_split sb.version sb.data_block_size sb.hash_block_size sb.data_blocks
        ((data_size / sb.data_block_size + 1) % 2 ^ 64) algorithm root_hash salt dev nd ned in
    let rest : fields (algorithm ++ (space ∷ (root_hash ++ (space ∷ salt))))
        ≡ algorithm ∷ root_hash ∷ salt ∷ [] =
      fields-append algorithm _ na (λ empty. named (sym same ∙ empty))
      ∙ ap (λ l. algorithm ∷ l)
          (fields_root root_hash salt nr (get_salt-has_special sb hs bytes) ner
            (get_salt-ne-nil sb hs)) in
    (insert_device dev parts, salt, rw (made, split) refl, hs, rw (found, rest, same) refl)

empty_algorithm :
    (sb : VeritySuperBlock) → take_until_nul sb.algorithm ≡ [] → get_algorithm sb ≡ ok []
unfolding get_algorithm is_utf8 contains_whitespace
empty_algorithm sb e = rw e refl

full_salt :
    (sb : VeritySuperBlock)
    → 0 < sb.salt_size
    → sb.salt_size ≤ length sb.salt
    → get_salt sb ≡ ok (hex (take sb.salt_size sb.salt))
unfolding get_salt
full_salt sb sz fits = ground (arith, le→leb sb.salt_size (length sb.salt))

-- A superblock whose algorithm is empty is accepted, and the kernel then finds nine fields: the root
-- hash stands in the place of the algorithm, and the salt in the place of the root hash.
pub from_verity_image_shifts :
    (sb : VeritySuperBlock) (data_size hash_size hash_offset : ℕ) (root_hash dev : List ℕ)
    → take_until_nul sb.algorithm ≡ []
    → 0 < sb.salt_size
    → sb.salt_size ≤ length sb.salt
    → AreBytes sb.salt
    → 0 < sb.data_block_size
    → 0 < sb.hash_block_size
    → has_special root_hash ≡ false
    → has_special dev ≡ false
    → root_hash ≢ []
    → dev ≢ []
    → (info : PackageFsVerityInfo) × (table : List ℕ) × (from_verity_image
          (some sb)
          data_size
          hash_size
          hash_offset
          root_hash
        ≡ ok info)
      × (resolve_table info dev ≡ ok table)
      × (fields table
          ≡ decimal sb.version
            ∷ dev
            ∷ dev
            ∷ decimal sb.data_block_size
            ∷ decimal sb.hash_block_size
            ∷ decimal sb.data_blocks
            ∷ decimal ((data_size / sb.data_block_size + 1) % 2 ^ 64)
            ∷ root_hash
            ∷ hex (take sb.salt_size sb.salt)
            ∷ [])
unfolding from_verity_image resolve_table has_special
from_verity_image_shifts sb data_size hash_size hash_offset root_hash dev empty sz fits bytes db hb
      nr nd ner ned =
    let salt = hex (take sb.salt_size sb.salt) in
    let start = (data_size / sb.data_block_size + 1) % 2 ^ 64 in
    let params =
      build_table_params sb.version sb.data_block_size sb.hash_block_size sb.data_blocks start []
        root_hash salt in
    let info : PackageFsVerityInfo = record {
      data_size = data_size;
      hash_size = hash_size;
      table_params = params;
      hash_offset = hash_offset;
    } in
    let (parts, split, found) =
      build_table_params_split sb.version sb.data_block_size sb.hash_block_size sb.data_blocks start
        [] root_hash salt dev nd ned in
    let rest : fields (space ∷ (root_hash ++ (space ∷ salt))) ≡ root_hash ∷ salt ∷ [] =
      fields-space _
      ∙ fields_root root_hash salt nr
          (hex-has_special (take sb.salt_size sb.salt) (AreBytes-take sb.salt_size sb.salt bytes))
          ner (hex-take-ne-nil sb.salt_size sb.salt sz fits) in
    (
      info,
      insert_device dev parts,
      rw (empty_algorithm sb empty, full_salt sb sz fits) (ground arith),
      rw split refl,
      rw (found, rest) refl,
    )
