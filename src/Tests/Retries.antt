-- ===== src/Tests/Retries.antt =====
-- Backoff and attempts on concrete data.
use agcp.Prelude.{
  ℕ, ◌∷◌, ◌≤◌, ◌+◌, ◌%◌, ◌^◌, ◌≡◌, ◌≢◌, refl, false, none, some, [], arith, max, ◌*◌,
}
use agcp.Prelude.Text.{Bytes, codes}
use agcp.Prelude.Map
use agcp.Prelude.Map.{Map}
use agcp.RateLimit.Attempts.{
  Call, check_window, record_attempt, run, concurrent_calls_both_count, run_counts,
}
use agcp.RateLimit.Backoff.{calculate_backoff, calculate_backoff_mono, max_backoff_ms}

backoffs :
    (calculate_backoff 1000 1 ≡ 1000)
    × (calculate_backoff 1000 3 ≡ 4000)
    × (calculate_backoff 1000 20 ≡ 60_000)
    × (calculate_backoff 90_000 2 ≡ 90_000)
unfolding calculate_backoff
backoffs = (refl, refl, refl, refl)

calculate_backoff_mono_example :
    (calculate_backoff 1000 2 ≤ calculate_backoff 1000 5)
    × (1000 ≤ calculate_backoff 1000 2)
    × (calculate_backoff 1000 5 ≤ max 1000 max_backoff_ms)
calculate_backoff_mono_example = calculate_backoff_mono 1000 2 5 (omega arith)

-- A call that reads every clock at the given second.
abbrev at_second : ℕ → Call
at_second n = record {
  now = n * 1_000_000_000;
  read_at = n * 1_000_000_000;
  write_at = n * 1_000_000_000;
  server_retry_after_ms = none;
}

abbrev model : Bytes
model = codes "gemini-3-flash"

concurrent_example :
    let (m, first) = record_attempt model (at_second 10) [] in
    let (m', second) = record_attempt model (at_second 11) m in
    (second.attempt ≡ (first.attempt + 1) % 2 ^ 32)
    × (second.is_duplicate ≡ false)
    × (check_window model (at_second 11) m ≢ none)
unfolding check_window Map.get
concurrent_example =
    concurrent_calls_both_count model (at_second 10) (at_second 11) [] refl refl (omega arith)
      (omega arith)

run_counts_example :
    Map.get model (
      run model
        (at_second 20 ∷ at_second 40 ∷ [])
        ((model, record { consecutive_429 = 1; last_at = 10_000_000_000 }) ∷ []))
    ≡ some (record { consecutive_429 = 1 + 2; last_at = 40_000_000_000 })
unfolding Map.get
run_counts_example =
    run_counts model (at_second 20 ∷ at_second 40 ∷ [])
      ((model, record { consecutive_429 = 1; last_at = 10_000_000_000 }) ∷ []) 1 10_000_000_000 refl
      (omega arith, omega arith, omega arith, (omega arith, omega arith, omega arith, tt))
      (omega arith)
