-- ===== src/Network/Slots.antt =====
-- `SlotAllocator` of ssamd/src/network/allocator.rs: the lowest free `u32` key for an id. A `u32`
-- is a native number below `u32_mod`.
pub mod Search
pub mod Owners
pub mod Keys
use ssam.Prelude.{
  ℕ, zero, suc, ◌+◌, Bool, true, false, not, ◌&&◌, ◌||◌, Option, none, some, [], ◌∷◌, String,
  HashMap, get, insert, remove, is_empty, ltb, ◌==◌, if◌then◌else◌, str_eq,
}

abbrev pub u32_mod : ℕ
u32_mod = 4294967296

-- `u32::checked_add`
abbrev pub checked_add : ℕ → ℕ → Option ℕ
checked_add a b = if ltb (a + b) u32_mod then some (a + b) else none

pub record SlotAllocator : Type 0 where
  pub attached : HashMap ℕ

unfoldable pub new : SlotAllocator
new = record { attached = [] }

-- `attached.values().any(|&held| held == slot)`
unfoldable pub holds : HashMap ℕ → ℕ → Bool
holds [] slot = false
holds ((i, held) ∷ m) slot = held == slot || holds m slot

-- The chain `successors(start, checked_add step).take_while(in_range).find(free)`, on fuel.
unfoldable pub find_free : ℕ → HashMap ℕ → ℕ → (ℕ → Bool) → ℕ → Option ℕ
find_free zero m step in_range slot = none
find_free (suc fuel) m step in_range slot =
    let next_slot : Option ℕ = elim (checked_add slot step) [
      | none ↦ none
      | some next ↦ find_free fuel m step in_range next
    ] in
    if in_range slot then (if not (holds m slot) then some slot else next_slot) else none

-- There are `u32_mod` keys and every round but the first moves up, so this fuel is never used up.
attach_free : SlotAllocator → String → Option ℕ → Option ℕ × SlotAllocator
attach_free s id none = (none, s)
attach_free s id (some candidate) =
    (some candidate, record { attached = insert s.attached id candidate })

allocate_new : Option ℕ → SlotAllocator → String → ℕ → ℕ → (ℕ → Bool) → Option ℕ × SlotAllocator
unfolding attach_free
allocate_new (some existing) s id start step in_range = (some existing, s)
allocate_new none s id start step in_range =
    attach_free s id (find_free u32_mod s.attached step in_range start)

unfoldable pub allocate : SlotAllocator → String → ℕ → ℕ → (ℕ → Bool) → Option ℕ × SlotAllocator
unfolding allocate_new
allocate s id start step in_range = allocate_new (get s.attached id) s id start step in_range

-- `attached.iter().find(|(owner, owned)| owned == key && owner != id)`
unfoldable pub find_owner : HashMap ℕ → String → ℕ → Option String
find_owner [] id key = none
find_owner ((owner, owned) ∷ m) id key =
    if owned == key && not (str_eq owner id) then some owner else find_owner m id key

-- `Err(owner)` is `some owner`: another id holds the key, and nothing changes.
claim_unowned : Option String → SlotAllocator → String → ℕ → Option String × SlotAllocator
claim_unowned (some owner) s id key = (some owner, s)
claim_unowned none s id key = (none, record { attached = insert s.attached id key })

unfoldable pub claim : SlotAllocator → String → ℕ → Option String × SlotAllocator
unfolding claim_unowned
claim s id key = claim_unowned (find_owner s.attached id key) s id key

unfoldable pub release : SlotAllocator → String → SlotAllocator
release s id = record { attached = remove s.attached id }

unfoldable pub attached_key : SlotAllocator → String → Option ℕ
attached_key s id = get s.attached id

abbrev pub has_none : SlotAllocator → Bool
has_none s = is_empty s.attached
