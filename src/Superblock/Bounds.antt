-- ===== src/Superblock/Bounds.antt =====
-- A block size that is given is a power of two that fits.
use ssam.Prelude.{
  ℕ, zero, suc, ◌+◌, ◌*◌, ◌%◌, ◌^◌, ◌≤◌, ◌≡◌, refl, true, Option, none, some, ok, arith, leb,
  leb→le, inl, inr, Bool-cases, Result-cases,
}
use native.Mathlib.Nat.{pow-le-pow_right, two-pow-succ, mod-eq_of_lt}
use ssam.Superblock.{
  SuperBlock, erofs_block, ext4_block, Image, block_size, get_superblock, verify, new,
  decoded_erofs, decoded_ext4,
}

-- The exponent of a block size.
abbrev pub exponent : SuperBlock → ℕ
exponent (erofs_block sb) = sb.blkszbits
exponent (ext4_block sb) = sb.s_log_block_size + 10

get_superblock-verify :
    (image : Image) (decoded : Option SuperBlock) {sb : SuperBlock}
    → get_superblock image decoded ≡ ok sb
    → verify sb ≡ true
unfolding get_superblock
get_superblock-verify image none e = absurd (ground arith)
get_superblock-verify image (some sb) e = elim (Bool-cases (verify sb)) [
  | inl good ↦ ground arith
  | inr bad ↦ absurd (ground arith)
]

new-verify : (image : Image) {sb : SuperBlock} → new image ≡ ok sb → verify sb ≡ true
unfolding new
new-verify image {sb} e =
    elim (Result-cases (get_superblock image (decoded_erofs image.decode_erofs))) [
      | inl (a, found) ↦
          get_superblock-verify image (decoded_erofs image.decode_erofs) {sb = sb} (ground arith)
      | inr (t, failed) ↦
          elim (Result-cases (get_superblock image (decoded_ext4 image.decode_ext4))) [
            | inl (a, found) ↦
                get_superblock-verify image (decoded_ext4 image.decode_ext4) {sb = sb}
                  (ground arith)
            | inr (u, lost) ↦ absurd (ground arith)
          ]
    ]

-- A power of two up to 64 KiB is not cut off in 32 bits.
power_fits : (k : ℕ) → k ≤ 16 → (2 ^ k ≤ 65536) × (2 ^ k % 2 ^ 32 ≡ 2 ^ k)
power_fits k le =
    let small : 2 ^ k ≤ 2 ^ 16 = pow-le-pow_right (omega arith) le in
    (small, mod-eq_of_lt (omega (arith, small)))

shifted : (k : ℕ) → 1024 * 2 ^ k ≡ 2 ^ (k + 10)
shifted zero = refl
shifted (suc k) =
    let next : suc k + 10 ≡ suc (k + 10) = omega arith in
    rw (next, two-pow-succ k, two-pow-succ (k + 10)) (omega (arith, shifted k))

block_size_lem :
    (sb : SuperBlock) (n : ℕ) → block_size sb ≡ ok n → (n ≡ 2 ^ exponent sb) × (exponent sb ≤ 16)
unfolding block_size
block_size_lem (erofs_block sb) n e = elim (Bool-cases (leb sb.blkszbits 16)) [
  | inl small ↦
      let le : sb.blkszbits ≤ 16 = leb→le sb.blkszbits 16 small in
      (ground (arith, power_fits sb.blkszbits le), le)
  | inr big ↦ absurd (ground arith)
]
block_size_lem (ext4_block sb) n e = elim (Bool-cases (leb sb.s_log_block_size 6)) [
  | inl small ↦
      let le : sb.s_log_block_size + 10 ≤ 16 = omega (arith, leb→le sb.s_log_block_size 6 small) in
      (ground (arith, power_fits (sb.s_log_block_size + 10) le, shifted sb.s_log_block_size), le)
  | inr big ↦ absurd (ground arith)
]

-- The superblock of an image has the magic number of its filesystem, and its block size, if one is
-- given, is two to its exponent with no bit lost in 32 bits, at most 64 KiB.
pub new-block_size :
    (image : Image) (sb : SuperBlock) (n : ℕ)
    → new image ≡ ok sb
    → block_size sb ≡ ok n
    → (verify sb ≡ true) × (n ≡ 2 ^ exponent sb) × (exponent sb ≤ 16) × (n ≤ 65536)
new-block_size image sb n e size =
    let (power, le) = block_size_lem sb n size in
    (new-verify image e, power, le, omega (arith, power, (power_fits (exponent sb) le).0))
