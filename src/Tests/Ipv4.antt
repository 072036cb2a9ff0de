-- ===== src/Tests/Ipv4.antt =====
-- A concrete `Ipv4Net`, which shows that the laws of the interface can hold.
use native.Mathlib.Nat.{div-add-mod, mod-eq_of_lt}
use Prim.Native.Nat.{min}
use ssam.Prelude.{
  ◌&&◌, ℕ, ◌+◌, ◌-◌, ◌%◌, ◌≤◌, ◌<◌, ◌≡◌, refl, Option, none, some, arith, leb, if◌then◌else◌,
  Bool-cases, inl, inr, leb→le,
}
use ssam.Network.Ipnet.{Ipnet, block, block-pos, block-aligned, aligned_of_rest}
use ssam.Network.Pool.Slices.{aligned-fits}

pub record Cidr : Type 0 where
  pub base : ℕ
  pub bits : ℕ

abbrev pub cidr_addr : Cidr → ℕ
cidr_addr n = n.base % 4294967296

abbrev pub cidr_prefix : Cidr → ℕ
cidr_prefix n = min n.bits 32

abbrev pub cidr_network : Cidr → ℕ
cidr_network n = cidr_addr n - cidr_addr n % block (cidr_prefix n)

abbrev pub cidr_new : ℕ → ℕ → Option Cidr
cidr_new a p = if leb p 32 then some (record { base = a; bits = p }) else none

abbrev pub cidr_trunc : Cidr → Cidr
cidr_trunc n = record { base = cidr_network n; bits = n.bits }

pub cidr_new-some : (a p : ℕ) → a < 4294967296 → p ≤ 32 → (n : Cidr) × (cidr_new a p ≡ some n)
cidr_new-some a p l h = (record { base = a; bits = p }, ground arith)

pub cidr_new_fields :
    (a p : ℕ) {n : Cidr}
    → a < 4294967296
    → cidr_new a p ≡ some n
    → (cidr_addr n ≡ a) × (cidr_prefix n ≡ p)
cidr_new_fields a p {n} l e = elim (Bool-cases (leb p 32)) [
  | inr out ↦ absurd (ground arith)
  | inl fits ↦
      let made : record { base = a; bits = p } ≡ n = ground arith in
      let prefix : p ≤ 32 = leb→le p 32 fits in
      (rw (← made) (mod-eq_of_lt l), rw (← made) (omega arith))
]

cidr_rest : (n : Cidr) → cidr_addr n % block (cidr_prefix n) ≤ cidr_addr n
cidr_rest n = omega (arith, div-add-mod (cidr_addr n) (block (cidr_prefix n)))

pub cidr_network_lem :
    (n : Cidr) → cidr_network n + cidr_addr n % block (cidr_prefix n) ≡ cidr_addr n
cidr_network_lem n = omega (arith, cidr_rest n)

cidr_fits : (n : Cidr) → cidr_network n + block (cidr_prefix n) ≤ 4294967296
cidr_fits n =
    aligned-fits (cidr_network n) (block (cidr_prefix n)) 4294967296
      (aligned_of_rest (cidr_network n) (cidr_addr n) (block (cidr_prefix n)) (cidr_network_lem n))
      (block-aligned 4294967296 0 (cidr_prefix n) (omega arith) (omega arith) refl)
      (omega (arith, cidr_network_lem n))

abbrev pub cidr_broadcast : Cidr → ℕ
cidr_broadcast n = cidr_network n + block (cidr_prefix n) - 1

pub cidr_broadcast_lem : (n : Cidr) → cidr_broadcast n + 1 ≡ cidr_network n + block (cidr_prefix n)
cidr_broadcast_lem n = omega (arith, block-pos (cidr_prefix n))

pub cidr_broadcast-lt : (n : Cidr) → cidr_broadcast n < 4294967296
cidr_broadcast-lt n = omega (arith, cidr_fits n, block-pos (cidr_prefix n))

pub cidr_trunc_fields :
    (n : Cidr)
    → (cidr_addr (cidr_trunc n) ≡ cidr_network n) × (cidr_prefix (cidr_trunc n) ≡ cidr_prefix n)
cidr_trunc_fields n = (mod-eq_of_lt (omega (arith, cidr_fits n, block-pos (cidr_prefix n))), refl)

abbrev pub cidr : Ipnet
cidr = record {
  Net = Cidr;
  new = cidr_new;
  addr = cidr_addr;
  prefix_len = cidr_prefix;
  network = cidr_network;
  broadcast = cidr_broadcast;
  trunc = cidr_trunc;
  contains = λ n a. leb (cidr_network n) a && leb a (cidr_broadcast n);
  prefix_len-le = λ n. omega arith;
  new_some = cidr_new-some;
  new_fields = cidr_new_fields;
  network_lem = cidr_network_lem;
  broadcast_lem = cidr_broadcast_lem;
  broadcast-lt = cidr_broadcast-lt;
  display = λ _. "10.0.0.0";
  trunc_fields = cidr_trunc_fields;
}

-- 10.0.0.0 with this prefix.
abbrev pub ten : ℕ → Cidr
ten bits = record { base = 0x0a000000; bits = bits }
