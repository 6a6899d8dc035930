-- ===== src/RateLimit/Duration/Digits.antt =====
-- Numbers that are printed, and the numbers that the parser finds before a byte.
use mathlib.Core.List.{append_assoc, append-nil}
use agcp.Prelude.{
  ℕ, zero, suc, ◌+◌, ◌-◌, ◌*◌, ◌/◌, ◌%◌, ◌^◌, ◌<◌, ◌≡◌, refl, sym, ap, ◌∙◌, true, false, Option,
  none, some, [], ◌∷◌, ◌++◌, arith, any, ltb, leb, ◌==◌, if_rule, ◌≢◌,
}
use agcp.Prelude.Text.{Bytes}
use agcp.RateLimit.Duration.{
  ok, decimal, to_string, is_digit, last_run, digits_before, value_from, parse_u64, number_before,
}

-- Digits only.
abbrev pub AllDigits : Bytes → Type 0
AllDigits [] = Unit
AllDigits (b ∷ s) = (is_digit b ≡ true) × AllDigits s

append-AllDigits : (s t : Bytes) → AllDigits s → AllDigits t → AllDigits (s ++ t)
append-AllDigits [] t h k = k
append-AllDigits (b ∷ s) t h k = (h.0, append-AllDigits s t h.1 k)

digit-is_digit : (n : ℕ) → is_digit (b'0' + n % 10) ≡ true
digit-is_digit n = ground arith

decimal-AllDigits : (fuel n : ℕ) → AllDigits (decimal fuel n)
unfolding decimal
decimal-AllDigits zero n = tt
decimal-AllDigits (suc fuel) n =
    let d = digit-is_digit n in
    if_rule AllDigits (ltb n 10) ((b'0' + n % 10) ∷ [])
      (decimal fuel (n / 10) ++ (b'0' + n % 10) ∷ []) (λ _. (d, tt))
      (λ _.
        append-AllDigits (decimal fuel (n / 10)) ((b'0' + n % 10) ∷ [])
          (decimal-AllDigits fuel (n / 10)) (d, tt))

value_from-append :
    (n : ℕ) (s : Bytes) (b : ℕ) → value_from n (s ++ b ∷ []) ≡ value_from n s * 10 + (b - b'0')
value_from-append n [] b = refl
value_from-append n (c ∷ s) b = value_from-append (n * 10 + (c - b'0')) s b

value_from-decimal : (fuel n : ℕ) → n < 10 ^ fuel → value_from 0 (decimal fuel n) ≡ n
unfolding decimal
value_from-decimal zero n h = omega arith
value_from-decimal (suc fuel) n h =
    let d = b'0' + n % 10 in
    if_rule (λ s. value_from 0 s ≡ n) (ltb n 10) (d ∷ []) (decimal fuel (n / 10) ++ d ∷ [])
      (λ e. ground arith)
      (λ e.
        value_from-append 0 (decimal fuel (n / 10)) d
        ∙ ap (λ v. v * 10 + (d - b'0')) (value_from-decimal fuel (n / 10) (omega arith))
        ∙ omega arith)

append_ne : (s : Bytes) (b : ℕ) → s ++ b ∷ [] ≢ []
append_ne [] b h = absurd (ground arith)
append_ne (c ∷ s) b h = absurd (ground arith)

decimal_ne : (fuel n : ℕ) → decimal (suc fuel) n ≢ []
unfolding decimal
decimal_ne fuel n =
    let d = b'0' + n % 10 in
    if_rule (λ s. s ≢ []) (ltb n 10) (d ∷ []) (decimal fuel (n / 10) ++ d ∷ [])
      (λ _. append_ne [] d) (λ _. append_ne (decimal fuel (n / 10)) d)

last_run-digits :
    (run : Bytes) (before : Option ℕ) (ds : Bytes)
    → AllDigits ds
    → last_run run before ds ≡ (run ++ ds, before)
unfolding last_run
last_run-digits run before [] h = ap (λ r. (r, before)) (sym (append-nil run))
last_run-digits run before (b ∷ ds) h = rw (h.0) (
    last_run-digits (run ++ b ∷ []) before ds h.1
    ∙ ap (λ r. (r, before)) (append_assoc run (b ∷ []) ds))

-- The digits behind the last byte that is none.
pub last_run-behind :
    (run : Bytes) (before : Option ℕ) (p : Bytes) (c : ℕ) (ds : Bytes)
    → AllDigits ds
    → is_digit c ≡ false
    → last_run run before (p ++ c ∷ ds) ≡ (ds, some c)
unfolding last_run
last_run-behind run before [] c ds h k = rw k (last_run-digits [] (some c) ds h)
last_run-behind run before (a ∷ p) c ds h k = ground (
  arith,
  last_run-behind (run ++ a ∷ []) before p c ds h k,
  last_run-behind [] (some a) p c ds h k,
)

pub any-AllDigits :
    (c : ℕ) (s : Bytes) → AllDigits s → is_digit c ≡ false → any (λ a. a == c) s ≡ false
any-AllDigits c [] h k = refl
any-AllDigits c (b ∷ s) h k = ground (arith, any-AllDigits c s)

-- The text is a number that fits.
abbrev pub IsNumber : ℕ → Bytes → Type 0
IsNumber n ds = AllDigits ds × (ds ≢ []) × (value_from 0 ds ≡ n) × (n < 2 ^ 64)

pub to_string-IsNumber : (n : ℕ) → n < 2 ^ 64 → IsNumber n (to_string n)
to_string-IsNumber n h =
    (decimal-AllDigits 20 n, decimal_ne 19 n, value_from-decimal 20 n (omega arith), h)

parse_u64-IsNumber : (n : ℕ) (ds : Bytes) → IsNumber n ds → parse_u64 ds ≡ some n
unfolding parse_u64
parse_u64-IsNumber n [] h = absurd (h.1 refl)
parse_u64-IsNumber n (b ∷ ds) h = let e = h.2 in let f = h.3 in ground arith

pub number_before-IsNumber : (n : ℕ) (ds : Bytes) → IsNumber n ds → number_before ds ≡ ok (some n)
unfolding number_before digits_before
number_before-IsNumber n [] h = absurd (h.1 refl)
number_before-IsNumber n (b ∷ ds) h =
    rw (last_run-digits [] none (b ∷ ds) h.0) (ap ok (parse_u64-IsNumber n (b ∷ ds) h))

digits_before-behind :
    (p : Bytes) (c : ℕ) (ds : Bytes)
    → AllDigits ds
    → is_digit c ≡ false
    → leb 128 c ≡ false
    → digits_before (p ++ c ∷ ds) ≡ ok ds
unfolding digits_before
digits_before-behind p c ds h k narrow = rw (last_run-behind [] none p c ds h k, narrow)

pub number_before-behind :
    (p : Bytes) (c n : ℕ) (ds : Bytes)
    → IsNumber n ds
    → is_digit c ≡ false
    → leb 128 c ≡ false
    → number_before (p ++ c ∷ ds) ≡ ok (some n)
unfolding number_before
number_before-behind [] c n ds h k narrow =
    rw (digits_before-behind [] c ds h.0 k narrow) (ap ok (parse_u64-IsNumber n ds h))
number_before-behind (a ∷ p) c n ds h k narrow =
    rw (digits_before-behind (a ∷ p) c ds h.0 k narrow) (ap ok (parse_u64-IsNumber n ds h))
