-- ===== src/Tests/Statistics.antt =====
-- The counters on a few calls.
use agcp.Prelude.{ℕ, ◌+◌, ◌∷◌, ◌++◌, ◌≡◌, [], List, arith}
use agcp.Prelude.Text.{codes}
use agcp.Prelude.Map
use agcp.Prelude.Map.{Map}
use agcp.Stats.{Stats, TokenEvent, RateHistory}
use agcp.Stats.Counts.{
  Request, run, count_of, occurrences, models_of, endpoints_of, run_counts_names,
}
use agcp.Stats.Events.{run_usage, latest, run_usage-latest}

abbrev zeros : List ℕ
zeros = 0 ∷ 0 ∷ 0 ∷ []

abbrev history : RateHistory
history = record { buckets = zeros; current_idx = 0; last_second = 0; current_count = 0 }

abbrev fresh : Stats
fresh = record {
  requests = [];
  endpoint_requests = [];
  rate_history = history;
  token_counters = [];
  token_events = [];
}

abbrev requests : List Request
requests =
    record { model = codes "opus"; endpoint = codes "/v1/messages"; now_secs = 1 }
    ∷ record { model = codes "flash"; endpoint = codes "/v1/messages"; now_secs = 1 }
    ∷ record { model = codes "opus"; endpoint = codes "/v1/messages"; now_secs = 3 }
    ∷ []

run_counts_names_example :
    (count_of (codes "opus") (run requests fresh).requests
      ≡ 0 + occurrences (codes "opus") (models_of requests))
    × (count_of (codes "/v1/messages") (run requests fresh).endpoint_requests
        ≡ 0 + occurrences (codes "/v1/messages") (endpoints_of requests))
unfolding Map.get
run_counts_names_example =
    run_counts_names requests fresh (codes "opus") (codes "/v1/messages") (omega arith)
      (omega arith)

abbrev event : TokenEvent
event = record {
  elapsed_secs = 5;
  model = codes "opus";
  input_tokens = 10;
  output_tokens = 20;
  cache_read_tokens = 0;
}

run_usage-latest_example :
    (run_usage (event ∷ event ∷ []) fresh).token_events ≡ latest ([] ++ event ∷ event ∷ [])
run_usage-latest_example = run_usage-latest (event ∷ event ∷ []) fresh (omega arith)
