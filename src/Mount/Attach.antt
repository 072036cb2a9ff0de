-- ===== src/Mount/Attach.antt =====
-- Attaching a loop device: `attach_with_retry` of ssamd/src/mount.rs. The two counters are `u32`.
use ssam.Prelude.{
  ℕ, zero, suc, ◌+◌, ◌-◌, ◌%◌, ◌^◌, ◌≤◌, ◌<◌, ◌≡◌, refl, sym, subst, Bool, true, false, Option,
  none, some, Result, ok, err, ltb, arith, inl, inr, Bool-cases,
}
use native.Mathlib.Nat.{mod-eq_of_lt}

-- `io::ErrorKind`, as far as it is told apart.
pub data ErrorKind : Type 0 where
  resource_busy would_block other_kind : ErrorKind

-- Of an attachment `none` stands for success.
pub record LoopAttachBackend (S Dev : Type 0) : Type 0 where
  pub next_free : S → Option Dev × S
  pub try_attach : Dev → S → Option ErrorKind × S

pub data AttachError : Type 0 where
  no_free_device : AttachError
  attach_failed : ErrorKind → AttachError

module _ {S Dev : Type 0} (backend : LoopAttachBackend S Dev)
    (busy_max_retries wouldblock_max_retries : ℕ) where
  open backend use {next_free, try_attach}

  abbrev Outcome : Type 0
  Outcome = Option (Result AttachError Dev × S)

  abbrev go_on : Bool → ErrorKind → (S → Outcome) → S → Outcome
  go_on true kind again s = some (err (attach_failed kind), s)
  go_on false kind again s = again s

  -- A turn after the answer of an attachment; `again` is the rest of the loop with its counters.
  abbrev after_attach : ℕ → ℕ → (ℕ → ℕ → S → Outcome) → Dev → Option ErrorKind × S → Outcome
  after_attach busy wouldblock again dev (none, s) = some (ok dev, s)
  after_attach busy wouldblock again dev (some other_kind, s) =
      some (err (attach_failed other_kind), s)
  after_attach busy wouldblock again dev (some would_block, s) =
      go_on (ltb wouldblock_max_retries ((wouldblock + 1) % 2 ^ 32)) would_block
        (again busy ((wouldblock + 1) % 2 ^ 32)) s
  after_attach busy wouldblock again dev (some resource_busy, s) =
      go_on (ltb busy_max_retries ((busy + 1) % 2 ^ 32)) resource_busy
        (again ((busy + 1) % 2 ^ 32) wouldblock) s

  abbrev after_next : ℕ → ℕ → (ℕ → ℕ → S → Outcome) → Option Dev × S → Outcome
  after_next busy wouldblock again (none, s) = some (err no_free_device, s)
  after_next busy wouldblock again (some dev, s) =
      after_attach busy wouldblock again dev (try_attach dev s)

  -- The loop; `none` after that many turns without an end.
  unfoldable pub attach_with_retry : ℕ → ℕ → ℕ → S → Outcome
  attach_with_retry zero busy wouldblock s = none
  attach_with_retry (suc turns) busy wouldblock s =
      after_next busy wouldblock (attach_with_retry turns) (next_free s)

  -- What an outcome tells of the last call.
  abbrev pub Explains : Result AttachError Dev → S → Type 0
  Explains (ok dev) s = (t : S) × (try_attach dev t ≡ (none, s))
  Explains (err no_free_device) s = (t : S) × (next_free t ≡ (none, s))
  Explains (err (attach_failed kind)) s =
      (dev : Dev) × (t : S) × (try_attach dev t ≡ (some kind, s))

  Returned : Outcome → Type 0
  Returned o = (r : Result AttachError Dev) × (s : S) × (o ≡ some (r, s)) × Explains r s

  go_on-Returned :
      (max n : ℕ) (kind : ErrorKind) (again : S → Outcome) (dev : Dev) (t s : S)
      → try_attach dev t ≡ (some kind, s)
      → (n ≤ max → Returned (again s))
      → Returned (go_on (ltb max n) kind again s)
  unfolding Returned
  go_on-Returned max n kind again dev t s e k = elim (Bool-cases (ltb max n)) [
    | inl over ↦ rw over (err (attach_failed kind), s, refl, (dev, t, e))
    | inr left ↦ rw left (k (ground (arith, left)))
  ]

  after_attach-Returned :
      (busy wouldblock : ℕ) (again : ℕ → ℕ → S → Outcome) (dev : Dev) (t : S)
      (answer : Option ErrorKind × S)
      → try_attach dev t ≡ answer
      → busy_max_retries + 1 < 2 ^ 32
      → wouldblock_max_retries + 1 < 2 ^ 32
      → busy ≤ busy_max_retries
      → wouldblock ≤ wouldblock_max_retries
      → ((s : S) → busy + 1 ≤ busy_max_retries → Returned (again (busy + 1) wouldblock s))
      → ((s : S)
          → wouldblock + 1 ≤ wouldblock_max_retries
          → Returned (again busy (wouldblock + 1) s))
      → Returned (after_attach busy wouldblock again dev answer)
  unfolding Returned
  after_attach-Returned busy wouldblock again dev t (none, s) e bm wm b w kb kw =
      (ok dev, s, refl, (t, e))
  after_attach-Returned busy wouldblock again dev t (some other_kind, s) e bm wm b w kb kw =
      (err (attach_failed other_kind), s, refl, (dev, t, e))
  after_attach-Returned busy wouldblock again dev t (some would_block, s) e bm wm b w kb kw =
      let whole : (wouldblock + 1) % 2 ^ 32 ≡ wouldblock + 1 =
        mod-eq_of_lt (omega (arith, wm, w)) in
      subst (λ n. Returned (go_on (ltb wouldblock_max_retries n) would_block (again busy n) s))
        (sym whole)
        (go_on-Returned wouldblock_max_retries (wouldblock + 1) would_block
          (again busy (wouldblock + 1)) dev t s e (kw s))
  after_attach-Returned busy wouldblock again dev t (some resource_busy, s) e bm wm b w kb kw =
      let whole : (busy + 1) % 2 ^ 32 ≡ busy + 1 = mod-eq_of_lt (omega (arith, bm, b)) in
      subst (λ n. Returned (go_on (ltb busy_max_retries n) resource_busy (again n wouldblock) s))
        (sym whole)
        (go_on-Returned busy_max_retries (busy + 1) resource_busy (again (busy + 1) wouldblock) dev
          t s e (kb s))

  after_next-Returned :
      (busy wouldblock : ℕ) (again : ℕ → ℕ → S → Outcome) (t : S) (next : Option Dev × S)
      → next_free t ≡ next
      → ((dev : Dev) (s : S) → Returned (after_attach busy wouldblock again dev (try_attach dev s)))
      → Returned (after_next busy wouldblock again next)
  unfolding Returned
  after_next-Returned busy wouldblock again t (none, s) e k = (err no_free_device, s, refl, (t, e))
  after_next-Returned busy wouldblock again t (some dev, s) e k = k dev s

  loop-Returned :
      (turns busy wouldblock : ℕ) (s : S)
      → busy_max_retries + 1 < 2 ^ 32
      → wouldblock_max_retries + 1 < 2 ^ 32
      → busy ≤ busy_max_retries
      → wouldblock ≤ wouldblock_max_retries
      → (busy_max_retries - busy) + (wouldblock_max_retries - wouldblock) < turns
      → Returned (attach_with_retry turns busy wouldblock s)
  unfolding attach_with_retry
  loop-Returned zero busy wouldblock s bm wm b w fuel = absurd (omega (arith, fuel))
  loop-Returned (suc turns) busy wouldblock s bm wm b w fuel =
      after_next-Returned busy wouldblock (attach_with_retry turns) s (next_free s) refl (λ dev s'.
        after_attach-Returned busy wouldblock (attach_with_retry turns) dev s' (try_attach dev s')
          refl bm wm b w
          (λ u more.
            loop-Returned turns (busy + 1) wouldblock u bm wm more w (omega (arith, fuel, more)))
          (λ u more.
            loop-Returned turns busy (wouldblock + 1) u bm wm b more (omega (arith, fuel, more))))

  -- However the system answers, the loop ends within one attempt more than both limits of retries
  -- together, and what it returns is the last answer: a device that was attached by the last call, or
  -- the error of that call. The limits must be below the largest `u32`.
  pub attach_with_retry_ends :
      (s : S)
      → busy_max_retries + 1 < 2 ^ 32
      → wouldblock_max_retries + 1 < 2 ^ 32
      → (r : Result AttachError Dev) × (s' : S) × (attach_with_retry
            (busy_max_retries + wouldblock_max_retries + 1)
            0
            0
            s
          ≡ some (r, s'))
        × Explains r s'
  unfolding Returned
  attach_with_retry_ends s bm wm =
      loop-Returned (busy_max_retries + wouldblock_max_retries + 1) 0 0 s bm wm (omega arith)
        (omega arith) (omega arith)
