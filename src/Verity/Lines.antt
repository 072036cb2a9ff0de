-- ===== src/Verity/Lines.antt =====
-- How the kernel takes the line of a table apart, and that the texts a table is made of are fields.
use ssam.Prelude.{
  ℕ, zero, suc, ◌+◌, ◌/◌, ◌%◌, ◌≡◌, refl, ap, Bool, true, false, ◌||◌, some, List, [], ◌∷◌, ◌++◌,
  ok, arith, ltb, leb, ◌==◌, if◌then◌else◌, inl, inr, Bool-cases, ◌≢◌, ◌<◌, ◌≤◌, length, take,
}
use ssam.Verity.{
  ascii_whitespace, VeritySuperBlock, take_until_nul, contains_whitespace, get_algorithm, hex,
  get_salt, decimal, decimal_from, space, split_once,
}

-- How the kernel's device mapper is documented to take a line apart: fields end at a run of
-- whitespace, and a backslash takes the byte after it into the field, whatever that byte is.
abbrev pub backslash : ℕ
backslash = 0x5c

abbrev pub splits : ℕ → Bool
splits b = ascii_whitespace b || b == 0xa0

abbrev push : ℕ → List ℕ × List (List ℕ) → List ℕ × List (List ℕ)
push b (s, ss) = (b ∷ s, ss)

abbrev close : List ℕ × List (List ℕ) → List ℕ × List (List ℕ)
close ([], ss) = ([], ss)
close (b ∷ s, ss) = ([], (b ∷ s) ∷ ss)

-- The rest of the field that the line starts in, and the fields after it. The flag says that a
-- backslash stands before.
fields_from : Bool → List ℕ → List ℕ × List (List ℕ)
fields_from true [] = (backslash ∷ [], [])
fields_from false [] = ([], [])
fields_from true (b ∷ bs) = push b (fields_from false bs)
fields_from false (b ∷ bs) =
    let rest = fields_from (b == backslash) bs in
    if b == backslash then rest else if splits b then close rest else push b rest

unfoldable pub fields : List ℕ → List (List ℕ)
unfolding fields_from
fields bs = (close (fields_from false bs)).1

-- Whether a byte of a text splits it, or takes the next one.
unfoldable pub has_special : List ℕ → Bool
has_special [] = false
has_special (b ∷ bs) = (b == backslash || splits b) || has_special bs

-- The special bytes that are no whitespace of ASCII.
unfoldable pub has_hidden : List ℕ → Bool
has_hidden [] = false
has_hidden (b ∷ bs) = (b == backslash || b == 0xa0) || has_hidden bs

close-close : (x : List ℕ × List (List ℕ)) → close x ≡ ([], (close x).1)
close-close ([], ss) = refl
close-close (b ∷ s, ss) = refl

fields_from-append :
    (s r : List ℕ)
    → has_special s ≡ false
    → fields_from false (s ++ (space ∷ r)) ≡ (s, (close (fields_from false r)).1)
unfolding fields_from has_special
fields_from-append [] r e = close-close (fields_from false r)
fields_from-append (b ∷ s) r e = elim (Bool-cases (b == backslash)) [
  | inl t ↦ absurd (ground (arith, t))
  | inr t ↦ elim (Bool-cases (splits b)) [
    | inl u ↦ absurd (ground (arith, t, u))
    | inr u ↦ rw (t, u) (ap (push b) (fields_from-append s r (ground (arith, t, u))))
  ]
]

fields_from-word : (s : List ℕ) → has_special s ≡ false → fields_from false s ≡ (s, [])
unfolding fields_from has_special
fields_from-word [] e = refl
fields_from-word (b ∷ s) e = elim (Bool-cases (b == backslash)) [
  | inl t ↦ absurd (ground (arith, t))
  | inr t ↦ elim (Bool-cases (splits b)) [
    | inl u ↦ absurd (ground (arith, t, u))
    | inr u ↦ rw (t, u) (ap (push b) (fields_from-word s (ground (arith, t, u))))
  ]
]

pub fields_word : (s : List ℕ) → has_special s ≡ false → s ≢ [] → fields s ≡ s ∷ []
unfolding fields
fields_word [] e ne = absurd (ne refl)
fields_word (b ∷ s) e ne = ap (λ x. (close x).1) (fields_from-word (b ∷ s) e)

pub fields-append :
    (s r : List ℕ) → has_special s ≡ false → s ≢ [] → fields (s ++ (space ∷ r)) ≡ s ∷ fields r
unfolding fields
fields-append [] r e ne = absurd (ne refl)
fields-append (b ∷ s) r e ne = ap (λ x. (close x).1) (fields_from-append (b ∷ s) r e)

-- An empty field is none.
pub fields-space : (r : List ℕ) → fields (space ∷ r) ≡ fields r
unfolding fields fields_from
fields-space r = ap (λ x. (close x).1) (close-close (fields_from false r))

pub split_once-append :
    (s r : List ℕ) → has_special s ≡ false → split_once (s ++ (space ∷ r)) ≡ some (s, r)
unfolding split_once has_special
split_once-append [] r e = refl
split_once-append (b ∷ s) r e = ground (arith, split_once-append s r)

decimal_from-has_special :
    (turns n : ℕ) (out : List ℕ)
    → has_special out ≡ false
    → has_special (decimal_from turns n out) ≡ false
unfolding decimal_from has_special
decimal_from-has_special zero n out e = ground arith
decimal_from-has_special (suc turns) n out e =
    ground (arith, decimal_from-has_special turns (n / 10) ((48 + n % 10) ∷ out))

pub decimal-has_special : (n : ℕ) → has_special (decimal n) ≡ false
unfolding decimal has_special
decimal-has_special n = decimal_from-has_special n n [] refl

decimal_from-ne-nil :
    (turns n : ℕ) (out : List ℕ) → (b : ℕ) × (s : List ℕ) × (decimal_from turns n out ≡ b ∷ s)
unfolding decimal_from
decimal_from-ne-nil zero n out = (48 + n % 10, out, refl)
decimal_from-ne-nil (suc turns) n out = elim (Bool-cases (ltb n 10)) [
  | inl small ↦ (48 + n % 10, out, rw small refl)
  | inr more ↦ rw more (decimal_from-ne-nil turns (n / 10) ((48 + n % 10) ∷ out))
]

pub fields-decimal : (n : ℕ) (r : List ℕ) → fields (decimal n ++ (space ∷ r)) ≡ decimal n ∷ fields r
fields-decimal n r =
    fields-append (decimal n) r (decimal-has_special n)
      (λ e. unfold decimal in let (b, s, c) = decimal_from-ne-nil n n [] in cc)

abbrev pub AreBytes : List ℕ → Type 0
AreBytes [] = Unit {0}
AreBytes (b ∷ bs) = (b < 256) × AreBytes bs

pub AreBytes-take : (n : ℕ) (s : List ℕ) → AreBytes s → AreBytes (take n s)
unfolding take
AreBytes-take zero s h = tt
AreBytes-take (suc n) [] h = tt
AreBytes-take (suc n) (b ∷ s) h = (h.0, AreBytes-take n s h.1)

pub hex-has_special : (s : List ℕ) → AreBytes s → has_special (hex s) ≡ false
unfolding hex has_special
hex-has_special [] h = refl
hex-has_special (b ∷ s) h =
    let high : b / 16 < 16 = omega (arith, h.0) in
    let low : b % 16 < 16 = omega arith in ground (arith, high, low, hex-has_special s h.1)

whitespace-has_special :
    (s : List ℕ) → contains_whitespace s ≡ false → has_hidden s ≡ false → has_special s ≡ false
unfolding contains_whitespace has_special has_hidden
whitespace-has_special [] e h = refl
whitespace-has_special (b ∷ s) e h = ground (arith, whitespace-has_special s)

pub take_until_nul-has_special :
    (sb : VeritySuperBlock) {a : List ℕ}
    → get_algorithm sb ≡ ok a
    → has_hidden (take_until_nul sb.algorithm) ≡ false
    → (a ≡ take_until_nul sb.algorithm) × (has_special a ≡ false)
unfolding get_algorithm
take_until_nul-has_special sb e h =
    ground (arith, whitespace-has_special (take_until_nul sb.algorithm))

pub get_salt-has_special :
    (sb : VeritySuperBlock) {s : List ℕ}
    → get_salt sb ≡ ok s
    → AreBytes sb.salt
    → has_special s ≡ false
unfolding get_salt has_special
get_salt-has_special sb e h =
    ground
      (arith, hex-has_special (take sb.salt_size sb.salt) (AreBytes-take sb.salt_size sb.salt h))

pub hex-take-ne-nil : (n : ℕ) (s : List ℕ) → 0 < n → n ≤ length s → hex (take n s) ≢ []
unfolding hex take length
hex-take-ne-nil zero s h l = absurd (omega (arith, h))
hex-take-ne-nil (suc n) [] h l = absurd (omega (arith, l))
hex-take-ne-nil (suc n) (b ∷ s) h l = λ e. cc

pub get_salt-ne-nil : (sb : VeritySuperBlock) {s : List ℕ} → get_salt sb ≡ ok s → s ≢ []
unfolding get_salt
get_salt-ne-nil sb {s} e empty = elim (Bool-cases (leb sb.salt_size (length sb.salt))) [
  | inr short ↦ let f = rw short at e in cc
  | inl fits ↦ elim (Bool-cases (sb.salt_size == 0)) [
    | inl none_given ↦ let f = rw (fits, none_given) at e in cc
    | inr given ↦
        let f = rw (fits, given) at e in
        hex-take-ne-nil sb.salt_size sb.salt (ground (arith, given)) (ground (arith, fits)) (cc)
  ]
]
