-- ===== src/Stats/Counts.antt =====
-- Each request is counted once for its model and once for its endpoint.
use agcp.Prelude.{ℕ, ◌+◌, ◌%◌, ◌^◌, ◌≤◌, ◌<◌, ◌≡◌, List, [], ◌∷◌, arith, length, if◌then◌else◌}
use agcp.Prelude.Text.{Bytes, text_eq, text_eq_iff}
use agcp.Prelude.Map
use agcp.Prelude.Map.{Map, get-insert}
use agcp.Stats.{Stats, or_zero, increment_map, record_request}

pub record Request : Type 0 where
  pub model : Bytes
  pub endpoint : Bytes
  pub now_secs : ℕ

unfoldable pub run : List Request → Stats → Stats
run [] s = s
run (r ∷ requests) s = run requests (record_request r.model r.endpoint r.now_secs s).0

-- How often a name is among them.
abbrev pub occurrences : Bytes → List Bytes → ℕ
occurrences k [] = 0
occurrences k (j ∷ names) = (if text_eq j k then 1 else 0) + occurrences k names

abbrev pub models_of : List Request → List Bytes
models_of [] = []
models_of (r ∷ requests) = r.model ∷ models_of requests

abbrev pub endpoints_of : List Request → List Bytes
endpoints_of [] = []
endpoints_of (r ∷ requests) = r.endpoint ∷ endpoints_of requests

abbrev pub count_of : Bytes → Map ℕ → ℕ
count_of k m = or_zero (Map.get k m)

count_of-increment_map :
    (j k : Bytes) (m : Map ℕ)
    → count_of k m + 1 < 2 ^ 64
    → count_of k (increment_map j m) ≡ count_of k m + (if text_eq j k then 1 else 0)
unfolding increment_map
count_of-increment_map j k m h =
    ground (arith, get-insert j k ((or_zero (Map.get j m) + 1) % 2 ^ 64) m, text_eq_iff j k)

-- The counters of any model and of any endpoint grow by the number of requests that name it, as
-- long as they fit in 64 bits.
pub run_counts_names :
    (requests : List Request) (s : Stats) (model endpoint : Bytes)
    → count_of model s.requests + length requests < 2 ^ 64
    → count_of endpoint s.endpoint_requests + length requests < 2 ^ 64
    → (count_of model (run requests s).requests
        ≡ count_of model s.requests + occurrences model (models_of requests))
      × (count_of endpoint (run requests s).endpoint_requests
          ≡ count_of endpoint s.endpoint_requests + occurrences endpoint (endpoints_of requests))
unfolding run record_request
run_counts_names [] s model endpoint h k = (omega arith, omega arith)
run_counts_names (r ∷ requests) s model endpoint h k =
    let a = count_of-increment_map r.model model s.requests (omega arith) in
    let b = count_of-increment_map r.endpoint endpoint s.endpoint_requests (omega arith) in
    let c : (if text_eq r.model model then 1 else 0) ≤ 1 = ground arith in
    let d : (if text_eq r.endpoint endpoint then 1 else 0) ≤ 1 = ground arith in
    let next = (record_request r.model r.endpoint r.now_secs s).0 in
    let more = run_counts_names requests next model endpoint (omega arith) (omega arith) in
    (omega (arith, more.0), omega (arith, more.1))
