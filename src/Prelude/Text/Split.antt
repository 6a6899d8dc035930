-- ===== src/Prelude/Text/Split.antt =====
-- Laws of `split_on`.
use agcp.Prelude.{
  ℕ, ◌+◌, ◌≤◌, ◌≡◌, refl, ap, false, none, some, [], ◌∷◌, ◌++◌, arith, ◌==◌, length, any,
  length-append, Option-cases, inl, inr,
}
use agcp.Prelude.Text.{Bytes, strip_prefix, strip_prefix_sound, strip_prefix-append, split_on}

strip_prefix-append_right :
    (s p r b : Bytes) → strip_prefix s p ≡ some r → strip_prefix (s ++ b) p ≡ some (r ++ b)
unfolding strip_prefix
strip_prefix-append_right s [] r b h = ground arith
strip_prefix-append_right [] (c ∷ p) r b h = absurd (ground arith)
strip_prefix-append_right (a ∷ s) (c ∷ p) r b h = ground (arith, strip_prefix-append_right s p r b)

-- A prefix that fits in and does not match does not match a longer text.
strip_prefix-append_none :
    (s p b : Bytes) → length p ≤ length s → strip_prefix s p ≡ none → strip_prefix (s ++ b) p ≡ none
unfolding strip_prefix
strip_prefix-append_none s [] b l h = absurd (ground arith)
strip_prefix-append_none [] (c ∷ p) b l h = absurd (omega arith)
strip_prefix-append_none (a ∷ s) (c ∷ p) b l h = ground (arith, strip_prefix-append_none s p b)

pub split_on_sound : (d s l r : Bytes) → split_on d s ≡ some (l, r) → s ≡ l ++ (d ++ r)
unfolding split_on
split_on_sound d [] l r h = absurd (ground arith)
split_on_sound d (a ∷ s) l r h = elim (Option-cases (strip_prefix (a ∷ s) d)) [
  | inr (q, e) ↦ ground (arith, strip_prefix_sound (a ∷ s) d q e)
  | inl e ↦ elim (Option-cases (split_on d s)) [
    | inl none_left ↦ absurd (ground arith)
    | inr (found, f) ↦ ground (arith, split_on_sound d s found.0 found.1)
  ]
]

pub length-split_on :
    (d s l r : Bytes) → split_on d s ≡ some (l, r) → length l + length d + length r ≡ length s
length-split_on d s l r h =
    let e = ap length (split_on_sound d s l r h) in
    omega (arith, e, length-append l (d ++ r), length-append d r)

pub split_on-append :
    (d s l r b : Bytes) → split_on d s ≡ some (l, r) → split_on d (s ++ b) ≡ some (l, r ++ b)
unfolding split_on
split_on-append d [] l r b h = absurd (ground arith)
split_on-append d (a ∷ s) l r b h = elim (Option-cases (strip_prefix (a ∷ s) d)) [
  | inr (q, e) ↦ ground (arith, strip_prefix-append_right (a ∷ s) d q b e)
  | inl e ↦ elim (Option-cases (split_on d s)) [
    | inl none_left ↦ absurd (ground arith)
    | inr (found, f) ↦
        let fits = length-split_on d s found.0 found.1 f in
        ground (
          arith,
          fits,
          strip_prefix-append_none (a ∷ s) d b (omega (arith, fits)) e,
          split_on-append d s found.0 found.1 b f,
        )
  ]
]

-- A delimiter whose first byte does not occur is not found.
pub split_on_absent :
    (c : ℕ) (d s : Bytes) → any (λ a. a == c) s ≡ false → split_on (c ∷ d) s ≡ none
unfolding split_on
split_on_absent c d [] h = refl
split_on_absent c d (a ∷ s) h = ground (arith, split_on_absent c d s)

-- The first delimiter stands behind bytes that do not begin one.
pub split_on_first :
    (c : ℕ) (d l r : Bytes)
    → any (λ a. a == c) l ≡ false
    → split_on (c ∷ d) (l ++ (c ∷ (d ++ r))) ≡ some (l, r)
unfolding split_on
split_on_first c d [] r h = ground (arith, strip_prefix-append (c ∷ d) r)
split_on_first c d (a ∷ l) r h = ground (arith, split_on_first c d l r)
