-- ===== src/RateLimit/Duration/RoundTrip.antt =====
-- A duration that is printed is read back.
use mathlib.Core.List.{append_assoc, append-nil}
use agcp.Prelude.{
  ℕ, ◌+◌, ◌*◌, ◌/◌, ◌%◌, ◌^◌, ◌<◌, ◌≡◌, refl, sym, ap, ◌∙◌, Bool, false, Option, none, some, [],
  ◌∷◌, ◌++◌, arith, any, ltb, ◌==◌, any-append, if_rule, ◌≢◌,
}
use agcp.Prelude.Text.{Bytes, split_at_byte-append, split_at_byte_absent}
use agcp.RateLimit.Duration.{
  ok, to_string, format_duration, number_before, parse_hours, parse_mins, parse_secs, total_ms,
  parse_duration_string, ends_with_m, starts_with_s, or_go_on, is_digit,
}
use agcp.RateLimit.Duration.Digits.{
  AllDigits, IsNumber, any-AllDigits, to_string-IsNumber, number_before-IsNumber,
  number_before-behind,
}

-- No such byte stands in the text.
abbrev has : ℕ → Bytes → Bool
has c = any (λ a. a == c)

ends_with_m-digits :
    (found : Bool) (ds : Bytes) → AllDigits ds → ds ≢ [] → ends_with_m found ds ≡ false
ends_with_m-digits found [] h k = absurd (k refl)
ends_with_m-digits found (b ∷ []) h k = ground arith
ends_with_m-digits found (b ∷ c ∷ ds) h k =
    ends_with_m-digits (b == b'm') (c ∷ ds) h.1 (λ e. absurd (ground arith))

ends_with_m-append :
    (found : Bool) (p ds : Bytes) → AllDigits ds → ds ≢ [] → ends_with_m found (p ++ ds) ≡ false
ends_with_m-append found [] ds h k = ends_with_m-digits found ds h k
ends_with_m-append found (b ∷ p) ds h k = ends_with_m-append (b == b'm') p ds h k

-- Up to the first "s" the loop only goes on.
parse_secs-skip :
    (before p rest : Bytes)
    → has b's' p ≡ false
    → parse_secs before (p ++ rest) ≡ parse_secs (before ++ p) rest
unfolding parse_secs
parse_secs-skip before [] rest h = ap (λ b. parse_secs b rest) (sym (append-nil before))
parse_secs-skip before (c ∷ p) rest h =
    let e : (c == b's') ≡ false = ground arith in
    let f : has b's' p ≡ false = ground arith in
    rw e (
      parse_secs-skip (before ++ c ∷ []) p rest f
      ∙ ap (λ b. parse_secs b rest) (append_assoc before (c ∷ []) p))

parse_secs-end :
    (p ds : Bytes) (n : ℕ)
    → has b's' p ≡ false
    → IsNumber n ds
    → number_before (p ++ ds) ≡ ok (some n)
    → parse_secs [] (p ++ (ds ++ b's' ∷ [])) ≡ ok (some n)
parse_secs-end p ds n h k e =
    let none_here : has b's' (p ++ ds) ≡ false =
      ground (arith, any-append (λ a. a == b's') p ds, any-AllDigits b's' ds k.0) in
    rw (← append_assoc p ds (b's' ∷ [])) (
      parse_secs-skip [] (p ++ ds) (b's' ∷ []) none_here
      ∙ unfold parse_secs or_go_on in rw (ends_with_m-append false p ds k.0 k.1, e) refl)

starts_with_s-digits :
    (ds : Bytes) → AllDigits ds → ds ≢ [] → starts_with_s (ds ++ b's' ∷ []) ≡ false
starts_with_s-digits [] h k = absurd (k refl)
starts_with_s-digits (b ∷ ds) h k = ground arith

-- Minutes and seconds, behind what may stand before the minutes.
module _ (p ds : Bytes) (m s : ℕ) where
  abbrev tail : Bytes
  tail = p ++ b'm' ∷ (ds ++ b's' ∷ [])

  parse_mins-tail :
      has b'm' p ≡ false
      → IsNumber s ds
      → number_before p ≡ ok (some m)
      → parse_mins tail ≡ ok (some m)
  unfolding parse_mins
  parse_mins-tail h k e =
      rw
        (
          split_at_byte-append b'm' p (ds ++ b's' ∷ []) h,
          parse_mins,
          starts_with_s-digits ds k.0 k.1,
        )
        e

  parse_secs-tail : has b's' p ≡ false → IsNumber s ds → parse_secs [] tail ≡ ok (some s)
  parse_secs-tail h k =
      let q = p ++ b'm' ∷ [] in
      let none_here : has b's' q ≡ false =
        ground (arith, any-append (λ a. a == b's') p (b'm' ∷ [])) in
      let e : number_before (q ++ ds) ≡ ok (some s) =
        rw (append_assoc p (b'm' ∷ []) ds) (number_before-behind p b'm' s ds k refl refl) in
      rw (← append_assoc p (b'm' ∷ []) (ds ++ b's' ∷ [])) (parse_secs-end q ds s none_here k e)

-- The three numbers, together.
reads :
    (text : Bytes) (h m s : Option ℕ) (ms : ℕ)
    → parse_hours text ≡ ok h
    → parse_mins text ≡ ok m
    → parse_secs [] text ≡ ok s
    → total_ms h m s ≡ some ms
    → parse_duration_string text ≡ ok (some ms)
unfolding parse_duration_string
reads text h m s ms e f g t = rw (e, f, g) (ap ok t)

parse_hours_absent : (text : Bytes) → has b'h' text ≡ false → parse_hours text ≡ ok none
unfolding parse_hours
parse_hours_absent text h = rw (split_at_byte_absent b'h' text h, parse_hours) refl

parse_mins_absent : (text : Bytes) → has b'm' text ≡ false → parse_mins text ≡ ok none
unfolding parse_mins
parse_mins_absent text h = rw (split_at_byte_absent b'm' text h, parse_mins) refl

has-secs :
    (c s : ℕ) (ds : Bytes)
    → IsNumber s ds
    → is_digit c ≡ false
    → (b's' == c) ≡ false
    → has c (ds ++ b's' ∷ []) ≡ false
has-secs c s ds k h e =
    ground (arith, any-append (λ a. a == c) ds (b's' ∷ []), any-AllDigits c ds k.0 h)

reads_secs :
    (s : ℕ) (ds : Bytes)
    → IsNumber s ds
    → s * 1000 < 2 ^ 64
    → parse_duration_string (ds ++ b's' ∷ []) ≡ ok (some (s * 1000))
reads_secs s ds k fits =
    reads (ds ++ b's' ∷ []) none none (some s) (s * 1000)
      (parse_hours_absent _ (has-secs b'h' s ds k refl refl))
      (parse_mins_absent _ (has-secs b'm' s ds k refl refl))
      (parse_secs-end [] ds s refl k (number_before-IsNumber s ds k)) (ap some (omega arith))

reads_mins :
    (m s : ℕ) (dm ds : Bytes)
    → IsNumber m dm
    → IsNumber s ds
    → m * 60_000 + s * 1000 < 2 ^ 64
    → parse_duration_string (dm ++ b'm' ∷ (ds ++ b's' ∷ [])) ≡ ok (some (m * 60_000 + s * 1000))
reads_mins m s dm ds j k fits =
    reads (dm ++ b'm' ∷ (ds ++ b's' ∷ [])) none (some m) (some s) (m * 60_000 + s * 1000)
      (parse_hours_absent _ (
        ground (
          arith,
          any-append (λ a. a == b'h') dm (b'm' ∷ (ds ++ b's' ∷ [])),
          any-AllDigits b'h' dm j.0 refl,
          has-secs b'h' s ds k refl refl,
        )))
      (parse_mins-tail dm ds m s (any-AllDigits b'm' dm j.0 refl) k (number_before-IsNumber m dm j))
      (parse_secs-tail dm ds m s (any-AllDigits b's' dm j.0 refl) k) (ap some (omega arith))

parse_hours-front :
    (h : ℕ) (dh rest : Bytes) → IsNumber h dh → parse_hours (dh ++ b'h' ∷ rest) ≡ ok (some h)
unfolding parse_hours
parse_hours-front h dh rest i =
    rw (split_at_byte-append b'h' dh rest (any-AllDigits b'h' dh i.0 refl), parse_hours)
      (number_before-IsNumber h dh i)

reads_hours :
    (h m s : ℕ) (dh dm ds : Bytes)
    → IsNumber h dh
    → IsNumber m dm
    → IsNumber s ds
    → h * 3_600_000 + m * 60_000 + s * 1000 < 2 ^ 64
    → parse_duration_string (dh ++ b'h' ∷ (dm ++ b'm' ∷ (ds ++ b's' ∷ [])))
      ≡ ok (some (h * 3_600_000 + m * 60_000 + s * 1000))
reads_hours h m s dh dm ds i j k fits =
    let p = dh ++ b'h' ∷ dm in
    let same = append_assoc dh (b'h' ∷ dm) (b'm' ∷ (ds ++ b's' ∷ [])) in
    let without : (c : ℕ) → is_digit c ≡ false → (b'h' == c) ≡ false → has c p ≡ false = λ c d e.
      ground (
        arith,
        any-append (λ a. a == c) dh (b'h' ∷ dm),
        any-AllDigits c dh i.0 d,
        any-AllDigits c dm j.0 d,
      ) in
    reads (dh ++ b'h' ∷ (dm ++ b'm' ∷ (ds ++ b's' ∷ []))) (some h) (some m) (some s)
      (h * 3_600_000 + m * 60_000 + s * 1000) (parse_hours-front h dh _ i)
      (ap parse_mins (sym same)
        ∙ parse_mins-tail p ds m s (without b'm' refl refl) k
            (number_before-behind dh b'h' m dm j refl refl))
      (ap (parse_secs []) (sym same) ∙ parse_secs-tail p ds m s (without b's' refl refl) k)
      (ap some (omega arith))

-- What is printed for a 64-bit number of milliseconds is read back as its whole seconds.
pub parse_duration_string-format_duration :
    (ms : ℕ)
    → ms < 2 ^ 64
    → parse_duration_string (format_duration ms) ≡ ok (some (ms / 1000 * 1000))
unfolding format_duration
parse_duration_string-format_duration ms fits =
    let total = ms / 1000 in
    let hours = total / 3600 in
    let mins = total % 3600 / 60 in
    let secs = total % 60 in
    let dh = to_string hours in
    let dm = to_string mins in
    let ds = to_string secs in
    let i = to_string-IsNumber hours (omega arith) in
    let j = to_string-IsNumber mins (omega arith) in
    let k = to_string-IsNumber secs (omega arith) in
    let P : Bytes → Type 0 = λ t. parse_duration_string t ≡ ok (some (ms / 1000 * 1000)) in
    if_rule P (ltb 0 hours) _ _
      (λ e.
        reads_hours hours mins secs dh dm ds i j k (omega arith)
        ∙ ap (λ n. ok (some n)) (omega arith))
      (λ e.
        let z : hours ≡ 0 = ground arith in
        if_rule P (ltb 0 mins) _ _
          (λ f. reads_mins mins secs dm ds j k (omega arith) ∙ ap (λ n. ok (some n)) (omega arith))
          (λ f.
            let w : mins ≡ 0 = ground arith in
            reads_secs secs ds k (omega arith) ∙ ap (λ n. ok (some n)) (omega arith)))
