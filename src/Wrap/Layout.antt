-- ===== src/Wrap/Layout.antt =====
-- Reading back the parts of a file by their distance from its end.
use ssam.Prelude.{
  ℕ, ◌+◌, ◌-◌, ◌≤◌, ◌≡◌, refl, ap, some, List, [], ◌++◌, ok, ok_or, arith, le→leb, length,
  length-append, drop-append, take-drop_middle,
}
use mathlib.Core.List.{append_assoc}
use ssam.Wrap.{format_version, magic, magic_len, format_version_len, footer, footer_len}
use ssam.Wrap.Loading.{opened, read_footer_field, verify_footer, seek, io_failed}

-- `read_exact` of a part at its offset.
pub read_exact-middle :
    (xs ys zs : List ℕ) (o n : ℕ)
    → o ≡ length xs
    → n ≡ length ys
    → (opened (xs ++ (ys ++ zs))).read_exact o n ≡ some ys
read_exact-middle xs ys zs o n eo en =
    let fits : o + n ≤ length (xs ++ (ys ++ zs)) =
      omega (arith, length-append xs (ys ++ zs), length-append ys zs, eo, en) in
    rw (le→leb (o + n) (length (xs ++ (ys ++ zs))) fits)
      (ap some (take-drop_middle xs ys zs o n eo en))

read_footer_field-middle :
    (xs ys zs : List ℕ) (n off : ℕ)
    → n ≡ length ys
    → off ≡ length ys + length zs
    → read_footer_field (xs ++ (ys ++ zs)) n off ≡ ok ys
unfolding read_footer_field
read_footer_field-middle xs ys zs n off en eo =
    let whole : length (xs ++ (ys ++ zs)) ≡ length xs + off =
      omega (arith, length-append xs (ys ++ zs), length-append ys zs, eo) in
    let fits : off ≤ length (xs ++ (ys ++ zs)) = omega (arith, whole) in
    let at : length (xs ++ (ys ++ zs)) - off ≡ length xs = omega (arith, whole) in
    rw (le→leb off (length (xs ++ (ys ++ zs))) fits)
      (ap (λ r. ok_or r io_failed) (read_exact-middle xs ys zs _ n at en))

magic_read : (xs : List ℕ) → read_footer_field (xs ++ footer) magic_len magic_len ≡ ok magic
unfolding length
magic_read xs =
    let whole : (xs ++ format_version) ++ (magic ++ []) ≡ xs ++ footer =
      append_assoc xs format_version (magic ++ []) in
    rw (← whole)
      (read_footer_field-middle (xs ++ format_version) magic [] magic_len magic_len refl refl)

version_read :
    (xs : List ℕ)
    → read_footer_field (xs ++ footer) format_version_len footer_len ≡ ok format_version
unfolding length
version_read xs =
    read_footer_field-middle xs format_version magic format_version_len footer_len refl refl

pub verify_footer-wrapped : (xs : List ℕ) → verify_footer (xs ++ footer) ≡ ok tt
unfolding verify_footer
verify_footer-wrapped xs = rw (magic_read xs, version_read xs) refl

-- A seek to the part after the first one, where offsets fit.
pub seek-append :
    (xs ys : List ℕ) (o : ℕ) → o ≡ length xs → o ≤ 9223372036854775807 → seek (xs ++ ys) o ≡ ok ys
unfolding seek
seek-append xs ys o eo fits =
    rw (le→leb o 9223372036854775807 fits) (ap ok (drop-append xs ys o eo))
