-- ===== src/RateLimit/Duration/Panics.antt =====
-- Where `parse_duration_string` cuts a text inside a character.
use agcp.Prelude.{ℕ, ◌≤◌, ◌≡◌, refl, ◌++◌, ◌∷◌, [], none, true, false, arith, any, ◌==◌, leb}
use agcp.Prelude.Text.{Bytes, split_at_byte-append}
use agcp.RateLimit.Duration.{
  panic, parse_hours, parse_duration_string, number_before, digits_before,
}
use agcp.RateLimit.Duration.Digits.{last_run-behind}

digits_before_wide : (p : Bytes) (w : ℕ) → 128 ≤ w → digits_before (p ++ w ∷ []) ≡ panic
unfolding digits_before
digits_before_wide p w h =
    let wide : leb 128 w ≡ true = ground arith in
    rw (last_run-behind [] none p w [] tt (ground arith), wide) refl

number_before_wide : (p : Bytes) (w : ℕ) → 128 ≤ w → number_before (p ++ w ∷ []) ≡ panic
unfolding number_before
number_before_wide [] w h = rw (digits_before_wide [] w h) refl
number_before_wide (a ∷ p) w h = rw (digits_before_wide (a ∷ p) w h) refl

-- A text whose first "h" stands right behind a character of more than one byte, the last of which
-- is `w`, makes the parser panic.
pub parse_duration_string_panics :
    (p rest : Bytes) (w : ℕ)
    → any (λ a. a == b'h') (p ++ w ∷ []) ≡ false
    → 128 ≤ w
    → parse_duration_string ((p ++ w ∷ []) ++ b'h' ∷ rest) ≡ panic
unfolding parse_duration_string parse_hours
parse_duration_string_panics p rest w h k =
    rw (split_at_byte-append b'h' (p ++ w ∷ []) rest h, parse_hours, number_before_wide p w k) refl
