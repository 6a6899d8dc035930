-- ===== src/Prelude/Text.antt =====
-- Rust text as its UTF-8 bytes: `str::as_bytes`, and the byte-level tests of the standard library
-- that the program calls (`==`, `starts_with`, `strip_prefix`, `ends_with`, `contains`, `find`).
pub mod Split
pub mod Trim
use Prim.Native.Char.{code}
use Prim.Native.String.{String}
use Prim.Native.Nat.{ℕ, zero, suc, ◌+◌, ◌-◌}
use mathlib.Core.Path.{◌≡◌, refl, sym, ap, ◌∙◌}
use mathlib.Core.Bool.{Bool, true, false, ◌&&◌, ◌||◌}
use mathlib.Core.List.{List, [], ◌∷◌, ◌++◌, map, reverse}
use mathlib.Core.Logic.{◌↔◌, inl, inr}
use mathlib.Core.Option.{Option, none, some}
use native.Mathlib.Omega.{arith}
use agcp.Prelude.Tests.{ltb, leb, le→leb, ◌==◌, if◌then◌else◌, if_rule, Bool-cases, Option-cases}
use agcp.Prelude.Lists.{length, take, drop, any, drop-append, take-append-drop, length-append}

abbrev pub Bytes : Type 0
Bytes = List ℕ

-- The bytes of an ASCII literal.
abbrev pub codes : String → Bytes
codes String.[] = []
codes (String.◌∷◌ c s) = code c ∷ codes s

-- `u8::to_ascii_lowercase`, and `str::to_ascii_lowercase` byte by byte.
unfoldable pub lower_byte : ℕ → ℕ
lower_byte c = if leb b'A' c && leb c b'Z' then c + 32 else c

unfoldable pub to_ascii_lowercase : Bytes → Bytes
unfolding lower_byte
to_ascii_lowercase [] = []
to_ascii_lowercase (c ∷ s) = lower_byte c ∷ to_ascii_lowercase s

abbrev pub text_eq : Bytes → Bytes → Bool
text_eq [] [] = true
text_eq [] (b ∷ t) = false
text_eq (a ∷ s) [] = false
text_eq (a ∷ s) (b ∷ t) = a == b && text_eq s t

pub eq_of_text_eq : (s t : Bytes) → text_eq s t ≡ true → s ≡ t
eq_of_text_eq [] [] h = refl
eq_of_text_eq [] (b ∷ t) h = absurd (ground arith)
eq_of_text_eq (a ∷ s) [] h = absurd (ground arith)
eq_of_text_eq (a ∷ s) (b ∷ t) h = ground (arith, eq_of_text_eq s t)

pub text_eq_refl : (s : Bytes) → text_eq s s ≡ true
text_eq_refl [] = refl
text_eq_refl (a ∷ s) = ground (arith, text_eq_refl s)

pub text_eq_iff : (s t : Bytes) → (text_eq s t ≡ true) ↔ (s ≡ t)
text_eq_iff s t = (eq_of_text_eq s t, λ e. rw e (text_eq_refl t))

-- `s.strip_prefix(p)`: what follows the prefix.
unfoldable pub strip_prefix : Bytes → Bytes → Option Bytes
strip_prefix s [] = some s
strip_prefix [] (b ∷ p) = none
strip_prefix (a ∷ s) (b ∷ p) = let rest = strip_prefix s p in if a == b then rest else none

pub strip_prefix_sound : (s p r : Bytes) → strip_prefix s p ≡ some r → s ≡ p ++ r
unfolding strip_prefix
strip_prefix_sound s [] r h = ground arith
strip_prefix_sound [] (b ∷ p) r h = absurd (ground arith)
strip_prefix_sound (a ∷ s) (b ∷ p) r h = ground (arith, strip_prefix_sound s p r)

pub strip_prefix-append : (p r : Bytes) → strip_prefix (p ++ r) p ≡ some r
unfolding strip_prefix
strip_prefix-append [] r = refl
strip_prefix-append (b ∷ p) r = ground (arith, strip_prefix-append p r)

abbrev pub is_some {ℓ} : {A : Type ℓ} → Option A → Bool
is_some none = false
is_some (some a) = true

-- `s.starts_with(p)`.
unfoldable pub starts_with : Bytes → Bytes → Bool
unfolding strip_prefix
starts_with s p = is_some (strip_prefix s p)

starts_with_sound : (s p : Bytes) → starts_with s p ≡ true → (r : Bytes) × (s ≡ p ++ r)
unfolding starts_with
starts_with_sound s p h = elim (Option-cases (strip_prefix s p)) [
  | inl e ↦ absurd (ground arith)
  | inr (r, e) ↦ (r, strip_prefix_sound s p r e)
]

pub starts_with-append : (p r : Bytes) → starts_with (p ++ r) p ≡ true
unfolding starts_with
starts_with-append p r = rw (strip_prefix-append p r)

pub starts_with_iff : (s p : Bytes) → (starts_with s p ≡ true) ↔ ((r : Bytes) × (s ≡ p ++ r))
starts_with_iff s p = (starts_with_sound s p, λ w. rw w.1 (starts_with-append p w.0))

-- `s.ends_with(p)`.
unfoldable pub ends_with : Bytes → Bytes → Bool
ends_with s p = leb (length p) (length s) && text_eq (drop (length s - length p) s) p

ends_with_sound : (s p : Bytes) → ends_with s p ≡ true → (r : Bytes) × (s ≡ r ++ p)
unfolding ends_with
ends_with_sound s p h =
    let n = length s - length p in
    let e : drop n s ≡ p = eq_of_text_eq (drop n s) p (ground arith) in
    (take n s, sym (take-append-drop n s) ∙ ap (λ t. take n s ++ t) e)

pub ends_with-append : (r p : Bytes) → ends_with (r ++ p) p ≡ true
unfolding ends_with
ends_with-append r p =
    let e : length (r ++ p) - length p ≡ length r = omega (arith, length-append r p) in
    let l : leb (length p) (length (r ++ p)) ≡ true =
      le→leb _ _ (omega (arith, length-append r p)) in
    rw (l, e, drop-append r p) (text_eq_refl p)

pub ends_with_iff : (s p : Bytes) → (ends_with s p ≡ true) ↔ ((r : Bytes) × (s ≡ r ++ p))
ends_with_iff s p = (ends_with_sound s p, λ w. rw w.1 (ends_with-append w.0 p))

-- `s.contains(p)`, for a needle that is not empty.
unfoldable pub contains : Bytes → Bytes → Bool
contains [] p = starts_with [] p
contains (a ∷ s) p = starts_with (a ∷ s) p || contains s p

abbrev pub Within : Bytes → Bytes → Type 0
Within p s = (before : Bytes) × (after : Bytes) × (s ≡ before ++ (p ++ after))

contains_sound : (s p : Bytes) → contains s p ≡ true → Within p s
unfolding contains
contains_sound [] p h = let (r, e) = starts_with_sound [] p h in ([], r, e)
contains_sound (a ∷ s) p h = elim (Bool-cases (starts_with (a ∷ s) p)) [
  | inl t ↦ let (r, e) = starts_with_sound (a ∷ s) p t in ([], r, e)
  | inr t ↦
      let (before, after, e) = contains_sound s p (ground arith) in
      (a ∷ before, after, ap (◌∷◌ a) e)
]

contains-of-starts_with : (s p : Bytes) → starts_with s p ≡ true → contains s p ≡ true
unfolding contains
contains-of-starts_with [] p h = h
contains-of-starts_with (a ∷ s) p h = rw h

contains-append : (before p after : Bytes) → contains (before ++ (p ++ after)) p ≡ true
unfolding contains
contains-append [] p after = contains-of-starts_with (p ++ after) p (starts_with-append p after)
contains-append (a ∷ before) p after = ground (arith, contains-append before p after)

-- `contains` says exactly that the needle stands somewhere in the text.
pub contains_iff : (s p : Bytes) → (contains s p ≡ true) ↔ Within p s
contains_iff s p = (contains_sound s p, λ w. rw w.2 (contains-append w.0 p w.1))

-- A property of a match on a text, arm by arm.
pub text_case {ℓ m} :
    {A : Type ℓ} (P : A → Type m) (s k : Bytes) (x y : A)
    → (s ≡ k → P x)
    → P y
    → P (if text_eq s k then x else y)
text_case P s k x y h1 h2 = if_rule P (text_eq s k) x y (λ e. h1 (eq_of_text_eq s k e)) (λ e. h2)

-- `s.find(c)`, split: what stands before the first such byte, and what stands behind it.
unfoldable pub split_at_byte : ℕ → Bytes → Option (Bytes × Bytes)
split_at_byte c [] = none
split_at_byte c (a ∷ s) =
    let rest = split_at_byte c s in
    if a == c then some ([], s) else elim rest [ none ↦ none | some (p, r) ↦ some (a ∷ p, r) ]

pub split_at_byte-append :
    (c : ℕ) (p r : Bytes) → any (λ a. a == c) p ≡ false → split_at_byte c (p ++ c ∷ r) ≡ some (p, r)
unfolding split_at_byte
split_at_byte-append c [] r h = ground arith
split_at_byte-append c (a ∷ p) r h = ground (arith, split_at_byte-append c p r)

pub split_at_byte_absent :
    (c : ℕ) (s : Bytes) → any (λ a. a == c) s ≡ false → split_at_byte c s ≡ none
unfolding split_at_byte
split_at_byte_absent c [] h = refl
split_at_byte_absent c (a ∷ s) h = ground (arith, split_at_byte_absent c s)

-- `s.find(d)` for a delimiter that is not empty, split: what stands before the first one, and what
-- stands behind it.
unfoldable pub split_on : Bytes → Bytes → Option (Bytes × Bytes)
unfolding strip_prefix
split_on d [] = none
split_on d (a ∷ s) =
    let rest = split_on d s in
    elim (strip_prefix (a ∷ s) d) [
      | some r ↦ some ([], r)
      | none ↦ elim rest [ none ↦ none | some (p, r) ↦ some (a ∷ p, r) ]
    ]
