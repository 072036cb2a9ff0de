-- ===== src/Network/Ipnet.antt =====
-- What ssamd uses of the `ipnet` crate's `Ipv4Net`, an address with a prefix length: the part is a
-- parameter of the network modules, with the documented behaviour of each call as a law. Addresses
-- are `u32` values.
use native.Mathlib.Nat.{
  div-add-mod, mul-mod_right, zero-add, suc-add, pow-suc, one-le-pow, pow-le-pow_right,
}
use ssam.Prelude.{
  ℕ, Bool, zero, suc, ◌+◌, ◌-◌, ◌*◌, ◌/◌, ◌%◌, ◌^◌, ◌≤◌, ◌<◌, ◌≡◌, String, Option, some, arith,
}

-- How many addresses a network of this prefix length has.
abbrev pub block : ℕ → ℕ
block prefix = 2 ^ (32 - prefix)

pub record Ipnet : Type 1 where
  pub Net : Type 0
  pub new : ℕ → ℕ → Option Net
  pub addr : Net → ℕ
  pub prefix_len : Net → ℕ
  pub network : Net → ℕ
  pub broadcast : Net → ℕ
  pub trunc : Net → Net
  pub contains : Net → ℕ → Bool
  pub prefix_len-le : (n : Net) → prefix_len n ≤ 32
  -- `new` refuses only a prefix above 32.
  pub new_some : (a p : ℕ) → a < 4294967296 → p ≤ 32 → (n : Net) × (new a p ≡ some n)
  pub new_fields :
      (a p : ℕ) {n : Net} → a < 4294967296 → new a p ≡ some n → (addr n ≡ a) × (prefix_len n ≡ p)
  -- `network` clears the host bits and `broadcast` sets them.
  pub network_lem : (n : Net) → network n + addr n % block (prefix_len n) ≡ addr n
  pub broadcast_lem : (n : Net) → broadcast n + 1 ≡ network n + block (prefix_len n)
  pub broadcast-lt : (n : Net) → broadcast n < 4294967296
  -- The text of an address.
  pub display : ℕ → String
  pub trunc_fields :
      (n : Net) → (addr (trunc n) ≡ network n) × (prefix_len (trunc n) ≡ prefix_len n)

pub aligned_of_rest : (x a b : ℕ) → x + a % b ≡ a → x % b ≡ 0
aligned_of_rest x a b e =
    let whole : x ≡ b * (a / b) = omega (arith, div-add-mod a b, e) in
    rw whole (mul-mod_right b (a / b))

aligned-half : (x m : ℕ) → x % (m * 2) ≡ 0 → x % m ≡ 0
aligned-half x m h =
    let whole : x ≡ m * (2 * (x / (m * 2))) = omega (arith, div-add-mod x (m * 2), h) in
    rw whole (mul-mod_right m (2 * (x / (m * 2))))

aligned_pow : (x a k : ℕ) → x % 2 ^ (k + a) ≡ 0 → x % 2 ^ a ≡ 0
aligned_pow x a zero h = rw zero-add at h
aligned_pow x a (suc k) h =
    aligned_pow x a k (aligned-half x (2 ^ (k + a)) (rw (suc-add, pow-suc) at h))

-- What is aligned to a large block is aligned to a smaller one.
pub block-aligned : (x p q : ℕ) → p ≤ q → q ≤ 32 → x % block p ≡ 0 → x % block q ≡ 0
block-aligned x p q le top h =
    aligned_pow x (32 - q) (q - p) (let e : q - p + (32 - q) ≡ 32 - p = omega arith in rw e h)

pub block-pos : (p : ℕ) → 0 < block p
block-pos p = one-le-pow (32 - p) 2 (omega arith)

-- A network with a prefix up to 30 has four addresses or more.
pub block-ge_four : (p : ℕ) → p ≤ 30 → 4 ≤ block p
block-ge_four p h = pow-le-pow_right {n = 2} (omega arith) {i = 2} {j = 32 - p} (omega arith)

module _ (ip : Ipnet) where
  open ip use {Net, new, addr, prefix_len, network, new_fields, network_lem}

  pub network-aligned : (n : Net) → network n % block (prefix_len n) ≡ 0
  network-aligned n = aligned_of_rest (network n) (addr n) (block (prefix_len n)) (network_lem n)

  -- The network of an address that is aligned to the prefix is the address.
  pub new-network :
      (a p : ℕ) {n : Net} → a < 4294967296 → new a p ≡ some n → a % block p ≡ 0 → network n ≡ a
  new-network a p {n} low e h =
      let (same_addr, same_prefix) = new_fields a p low e in
      let whole : network n + a % block p ≡ a = rw (same_addr, same_prefix) at (network_lem n) in
      omega (arith, whole, h)
