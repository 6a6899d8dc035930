-- ===== src/Models/Glob.antt =====
-- `glob_match`: patterns with one wildcard.
use mathlib.Core.List.{append_assoc, append-nil}
use agcp.Prelude.{
  ◌≡◌, ◌↔◌, sym, ap, ◌∙◌, Bool, true, ◌&&◌, Option, none, some, [], ◌∷◌, ◌++◌, ℕ, ◌+◌, ◌-◌, arith,
  leb, length, drop, length-append, le→leb, &&-true, suc, ◌≤◌,
}
use agcp.Prelude.Text.{
  Bytes, text_eq, text_eq_iff, to_ascii_lowercase, starts_with, starts_with_iff, starts_with-append,
  ends_with, ends_with_iff, ends_with-append, split_at_byte,
}

-- An empty suffix or prefix leaves the other test alone.
affixes : Bytes → Bytes → Bytes → Bool
affixes prefix [] input = starts_with input prefix
affixes [] suffix input = ends_with input suffix
affixes prefix suffix input =
    starts_with input prefix
    && ends_with input suffix
    && leb (length prefix + length suffix) (length input)

unfoldable pub match_lower : Option (Bytes × Bytes) → Bytes → Bytes → Bool
unfolding affixes
match_lower none pattern input = text_eq pattern input
match_lower (some (prefix, suffix)) pattern input = affixes prefix suffix input

unfoldable pub glob_match : Bytes → Bytes → Bool
unfolding to_ascii_lowercase split_at_byte match_lower
glob_match pattern input =
    let p = to_ascii_lowercase pattern in
    match_lower (split_at_byte b'*' p) p (to_ascii_lowercase input)

-- The input is the pattern, with some text in the place of its first star.
abbrev pub Between : Bytes → Bytes → Bytes → Type 0
Between prefix suffix input = (middle : Bytes) × (input ≡ prefix ++ (middle ++ suffix))

abbrev pub Fits : Option (Bytes × Bytes) → Bytes → Bytes → Type 0
Fits none pattern input = pattern ≡ input
Fits (some (prefix, suffix)) pattern input = Between prefix suffix input

ends_with-tail :
    (a : ℕ) (r suffix : Bytes)
    → length suffix ≤ length r
    → ends_with (a ∷ r) suffix ≡ true
    → ends_with r suffix ≡ true
unfolding ends_with
ends_with-tail a r suffix h k =
    let e : suc (length r) - length suffix ≡ suc (length r - length suffix) = omega arith in
    let l : leb (length suffix) (length r) ≡ true = le→leb _ _ h in
    let d : text_eq (drop (suc (length r) - length suffix) (a ∷ r)) suffix ≡ true =
      ground (arith, k) in
    rw l (rw e at d)

ends_with-behind :
    (p r suffix : Bytes)
    → length suffix ≤ length r
    → ends_with (p ++ r) suffix ≡ true
    → ends_with r suffix ≡ true
ends_with-behind [] r suffix h k = k
ends_with-behind (a ∷ p) r suffix h k =
    ends_with-behind p r suffix h
      (ends_with-tail a (p ++ r) suffix (omega (arith, length-append p r)) k)

affixes_sound :
    (prefix suffix input : Bytes) → affixes prefix suffix input ≡ true → Between prefix suffix input
unfolding affixes
affixes_sound prefix [] input h =
    let (r, e) = (starts_with_iff input prefix).0 h in
    (r, e ∙ ap (λ t. prefix ++ t) (sym (append-nil r)))
affixes_sound [] (b ∷ suffix) input h = (ends_with_iff input (b ∷ suffix)).0 h
affixes_sound (a ∷ prefix) (b ∷ suffix) input h =
    let size = leb (length (a ∷ prefix) + length (b ∷ suffix)) (length input) in
    let (both, long) =
      &&-true (starts_with input (a ∷ prefix) && ends_with input (b ∷ suffix)) size h in
    let (first, last) =
      &&-true (starts_with input (a ∷ prefix)) (ends_with input (b ∷ suffix)) both in
    let (r, e) = (starts_with_iff input (a ∷ prefix)).0 first in
    let fits : length (b ∷ suffix) ≤ length r =
      ground (arith, ap length e, length-append (a ∷ prefix) r) in
    let (middle, w) =
      (ends_with_iff r (b ∷ suffix)).0
        (ends_with-behind (a ∷ prefix) r (b ∷ suffix) fits (rw e at last)) in
    (middle, e ∙ ap (λ t. (a ∷ prefix) ++ t) w)

affixes-append :
    (prefix middle suffix : Bytes) → affixes prefix suffix (prefix ++ (middle ++ suffix)) ≡ true
unfolding affixes
affixes-append prefix middle [] = starts_with-append prefix (middle ++ [])
affixes-append [] middle (b ∷ suffix) = ends_with-append middle (b ∷ suffix)
affixes-append (a ∷ prefix) middle (b ∷ suffix) =
    let p = a ∷ prefix in
    let s = b ∷ suffix in
    let whole : ends_with (p ++ (middle ++ s)) s ≡ true =
      rw (← append_assoc p middle s) (ends_with-append (p ++ middle) s) in
    let long : leb (length p + length s) (length (p ++ (middle ++ s))) ≡ true =
      le→leb _ _ (omega (arith, length-append p (middle ++ s), length-append middle s)) in
    rw (starts_with-append p (middle ++ s), whole, long)

affixes_iff :
    (prefix suffix input : Bytes)
    → (affixes prefix suffix input ≡ true) ↔ Between prefix suffix input
affixes_iff prefix suffix input =
    (affixes_sound prefix suffix input, λ w. rw w.1 (affixes-append prefix w.0 suffix))

match_lower_iff :
    (o : Option (Bytes × Bytes)) (pattern input : Bytes)
    → (match_lower o pattern input ≡ true) ↔ Fits o pattern input
unfolding match_lower
match_lower_iff none pattern input = text_eq_iff pattern input
match_lower_iff (some (prefix, suffix)) pattern input = affixes_iff prefix suffix input

-- A pattern matches exactly the names that are, up to ASCII case, the pattern with some text in
-- the place of its first star, or the pattern itself where it has no star.
pub glob_match_iff :
    (pattern input : Bytes)
    → let p = to_ascii_lowercase pattern in
      (glob_match pattern input ≡ true) ↔ Fits (split_at_byte b'*' p) p (to_ascii_lowercase input)
unfolding glob_match
glob_match_iff pattern input =
    let p = to_ascii_lowercase pattern in
    match_lower_iff (split_at_byte b'*' p) p (to_ascii_lowercase input)
