-- ===== src/Tests/Durations.antt =====
-- Durations on concrete data.
use agcp.Prelude.{◌/◌, ◌*◌, ◌≡◌, refl, [], ◌∷◌, ◌++◌, none, some, arith}
use agcp.Prelude.Text.{codes, split_at_byte}
use agcp.RateLimit.Duration.{
  panic, ok, format_duration, parse_duration_string, decimal, parse_hours, parse_mins, parse_secs,
  number_before, or_go_on, digits_before, last_run, parse_u64,
}
use agcp.RateLimit.Duration.Panics.{parse_duration_string_panics}
use agcp.RateLimit.Duration.RoundTrip.{parse_duration_string-format_duration}

formats :
    (format_duration 5000 ≡ codes "5s")
    × (format_duration 65_000 ≡ codes "1m5s")
    × (format_duration 3_661_000 ≡ codes "1h1m1s")
unfolding format_duration decimal
formats = (refl, refl, refl)

-- The first "h" is that of "the": the hours are lost.
parses :
    (parse_duration_string (codes "1h30m45s") ≡ ok (some 5_445_000))
    × (parse_duration_string (codes "500ms") ≡ ok none)
    × (parse_duration_string (codes "the 1h5s") ≡ ok (some 5000))
unfolding parse_duration_string parse_hours parse_mins parse_secs number_before or_go_on
    digits_before last_run parse_u64 split_at_byte
parses = (refl, refl, refl)

round_trip_example :
    parse_duration_string (format_duration 7_643_210) ≡ ok (some (7_643_210 / 1000 * 1000))
round_trip_example = parse_duration_string-format_duration 7_643_210 (omega arith)

-- A quotation mark of three bytes in front of "hello".
panics_example :
    parse_duration_string (((0xe2 ∷ 0x80 ∷ []) ++ 0x9c ∷ []) ++ b'h' ∷ codes "ello") ≡ panic
panics_example =
    parse_duration_string_panics (0xe2 ∷ 0x80 ∷ []) (codes "ello") 0x9c refl (omega arith)
