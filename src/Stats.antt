-- ===== src/Stats.antt =====
-- src/stats.rs: the counters of the proxy. The maps and the queue are behind locks; a call here is
-- one that no other comes between. Seconds are those since the start of the server.
pub mod Counts
pub mod Events
use agcp.Prelude.{
  ℕ, zero, suc, ◌+◌, ◌-◌, ◌%◌, ◌^◌, Bool, Option, none, some, List, [], ◌∷◌, ◌++◌, ltb, leb, ◌==◌,
  length, get_or, if◌then◌else◌,
}
use agcp.Prelude.Text.{Bytes}
use agcp.Prelude.Map
use agcp.Prelude.Map.{Map}

abbrev pub rate_history_size : ℕ
rate_history_size = 60

abbrev pub max_token_events : ℕ
max_token_events = 1000

pub record TokenCounters : Type 0 where
  pub input_tokens : ℕ
  pub output_tokens : ℕ
  pub cache_read_tokens : ℕ

pub record TokenEvent : Type 0 where
  pub elapsed_secs : ℕ
  pub model : Bytes
  pub input_tokens : ℕ
  pub output_tokens : ℕ
  pub cache_read_tokens : ℕ

-- `buckets` has an entry for each second of a minute.
pub record RateHistory : Type 0 where
  pub buckets : List ℕ
  pub current_idx : ℕ
  pub last_second : ℕ
  pub current_count : ℕ

pub record Stats : Type 0 where
  pub requests : Map ℕ
  pub endpoint_requests : Map ℕ
  pub rate_history : RateHistory
  pub token_counters : Map TokenCounters
  pub token_events : List TokenEvent

abbrev pub or_zero : Option ℕ → ℕ
or_zero none = 0
or_zero (some n) = n

-- `fetch_add` wraps.
abbrev pub add_u64 : ℕ → ℕ → ℕ
add_u64 a b = (a + b) % 2 ^ 64

unfoldable pub increment_map : Bytes → Map ℕ → Map ℕ
increment_map key m = Map.insert key (add_u64 (or_zero (Map.get key m)) 1) m

unfoldable pub sum_map : Map ℕ → ℕ
sum_map [] = 0
sum_map ((k, n) ∷ m) = add_u64 n (sum_map m)

unfoldable pub set_at : ℕ → ℕ → List ℕ → List ℕ
set_at n v [] = []
set_at zero v (x ∷ xs) = v ∷ xs
set_at (suc n) v (x ∷ xs) = x ∷ set_at n v xs

-- The loop over the seconds that went by: their number is its fuel.
unfoldable pub rotate_seconds : ℕ → RateHistory → RateHistory
unfolding set_at
rotate_seconds zero h = h
rotate_seconds (suc n) h = rotate_seconds n (record {
  buckets = set_at h.current_idx h.current_count h.buckets;
  current_idx = (h.current_idx + 1) % rate_history_size;
  last_second = h.last_second + 1;
  current_count = 0;
})

abbrev begin_at : ℕ → RateHistory → RateHistory
begin_at now_secs h = if h.last_second == 0 then record h { last_second = now_secs } else h

unfoldable pub record_second : ℕ → RateHistory → RateHistory
unfolding rotate_seconds
record_second now_secs h =
    let begun = begin_at now_secs h in
    let turned = rotate_seconds (now_secs - begun.last_second) begun in
    record turned { current_count = add_u64 turned.current_count 1 }

-- The entry `i` of the history, from the oldest on, when `elapsed` seconds went by.
unfoldable pub entry : RateHistory → ℕ → ℕ → ℕ
entry h elapsed i =
    if ltb i (rate_history_size - elapsed)
    then get_or h.buckets ((h.current_idx + i + 1) % rate_history_size) 0
    else 0

-- The last `n` entries.
unfoldable pub entries : RateHistory → ℕ → ℕ → List ℕ
unfolding entry
entries h elapsed zero = []
entries h elapsed (suc n) = entry h elapsed (rate_history_size - suc n) ∷ entries h elapsed n

unfoldable pub set_last : ℕ → List ℕ → List ℕ
set_last v [] = []
set_last v (x ∷ []) = v ∷ []
set_last v (x ∷ y ∷ xs) = x ∷ set_last v (y ∷ xs)

unfoldable pub get_history : ℕ → RateHistory → List ℕ
unfolding entries set_last
get_history now_secs h =
    let elapsed = now_secs - h.last_second in
    let result = entries h elapsed rate_history_size in
    if elapsed == 0 then set_last h.current_count result else result

-- The new state, and whether it is to be saved.
unfoldable pub record_request : Bytes → Bytes → ℕ → Stats → Stats × Bool
unfolding increment_map sum_map record_second
record_request model endpoint now_secs s =
    let requests = increment_map model s.requests in
    (
      record s {
        requests = requests;
        endpoint_requests = increment_map endpoint s.endpoint_requests;
        rate_history = record_second now_secs s.rate_history;
      },
      sum_map requests % 50 == 0,
    )

abbrev or_new : Option TokenCounters → TokenCounters
or_new none = record { input_tokens = 0; output_tokens = 0; cache_read_tokens = 0 }
or_new (some c) = c

unfoldable pub add_tokens : TokenEvent → Map TokenCounters → Map TokenCounters
add_tokens e m =
    let c = or_new (Map.get e.model m) in
    Map.insert e.model
      (record {
        input_tokens = add_u64 c.input_tokens e.input_tokens;
        output_tokens = add_u64 c.output_tokens e.output_tokens;
        cache_read_tokens = add_u64 c.cache_read_tokens e.cache_read_tokens;
      })
      m

-- The first event makes way for another one.
unfoldable pub push_event : TokenEvent → List TokenEvent → List TokenEvent
push_event e [] = e ∷ []
push_event e (first ∷ events) =
    if leb max_token_events (length (first ∷ events))
    then events ++ e ∷ []
    else first ∷ (events ++ e ∷ [])

-- The arguments, and the second of the call, are those of the event.
unfoldable pub record_token_usage : TokenEvent → Stats → Stats
unfolding add_tokens push_event
record_token_usage e s = record s {
  token_counters = add_tokens e s.token_counters;
  token_events = push_event e s.token_events;
}
