-- ===== src/Tests/Upstream.antt =====
-- The upstream client on concrete replies.
use agcp.Prelude.{
  ℕ, zero, suc, ◌<◌, ◌∷◌, ◌≤◌, ◌+◌, ◌*◌, ◌≡◌, refl, true, false, Option, none, some, inl, ◌⊎◌, [],
  List, arith, min, ◌==◌, if◌then◌else◌,
}
use agcp.Prelude.Text.{Bytes, codes, to_ascii_lowercase, contains, starts_with}
use agcp.Format.Google.{GenerateContentResponse}
use agcp.RateLimit.Duration.{format_duration}
use agcp.RateLimit.Reason.{is_model_capacity_exhausted, contains_any}
use agcp.RateLimit.Reset.{
  ResetExternals, parse_reset_time, parse_reset_time_bounds, reset_ms, final_ms, or_else,
  parse_quota_reset_delay,
}
use agcp.CloudCode.Rounds.{Env, End}
use agcp.CloudCode.Send.{Client, Codecs, Reply, Body}
use agcp.CloudCode.Promises.{
  send_request_finishes, send_streaming_request_finishes, send_request_perseveres,
  send_request-answer,
}
use agcp.CloudCode.Calls.{send_request, send_streaming_request}
use agcp.CloudCode.Rations.{posts, waits, on_time, in_fuel}
use agcp.CloudCode.Perseveres.{IsShortRefusal}
use agcp.CloudCode.Answers.{IsAnswer}
use agcp.CloudCode.Permit.{Arrival, permits, Apart, permits-Apart}

-- Every body that matches asks for 400 ms; a floating-point number is a whole one.
abbrev pub externals : ResetExternals
externals = record {
  to_lowercase = to_ascii_lowercase;
  delay_captures = λ text. some (some (codes "400"), some (codes "ms"));
  F64 = ℕ;
  parse_f64 = λ text. some 400;
  times_1000 = λ n. n * 1000;
  ceil_u64 = λ n. n;
  timestamp_captures = λ text. none;
  ms_until = λ text. none;
}

abbrev pub env : Env
env = record { reset = externals; took = λ n. 100; clocks = λ n. (n, n, n); others = λ n m. m }

abbrev no_error : GenerateContentResponse Bytes
no_error = record { candidates = none; usage_metadata = none; error = none; prompt_feedback = none }

abbrev refusal : GenerateContentResponse Bytes
refusal = record {
  candidates = none;
  usage_metadata = none;
  error = some (record { code = 429; message = codes "slow down"; status = codes "BUSY" });
  prompt_feedback = none;
}

-- An empty body is a refusal.
abbrev decode : Bytes → GenerateContentResponse Bytes ⊎ Bytes
decode [] = inl refusal
decode (b ∷ s) = inl no_error

abbrev codecs : Codecs
codecs = record { Json = Bytes; from_slice = decode; lossy = λ s. s; from_utf8 = some }

abbrev client : Client
client = record { api_timeout = 120_000; max_retries = 3; min_request_interval = 500 }

abbrev pub model : Bytes
model = codes "gemini-3-flash"

-- A call 100 ms behind the permit before.
abbrev pub arrival : Arrival
arrival = record { closed = false; reading = 1000; extra = 1 }

-- One refusal, then an answer.
abbrev reply : ℕ → Option Reply
reply n =
    if n == 0
    then some (Reply.response 200 (Body.whole []))
    else some (Reply.response 200 (Body.whole (codes "{}")))

abbrev busy : ℕ → Reply
busy n = Reply.response 503 (Body.whole (codes "MODEL_CAPACITY_EXHAUSTED"))

send_request_finishes_example :
    let (actions, end) = (send_request env codecs client model arrival 900 reply 0 []).1 in
    (in_fuel end ≡ true)
    × (posts actions ≤ 8)
    × (waits actions ≤ 180_500)
    × (on_time actions ≡ true)
send_request_finishes_example = send_request_finishes env codecs client model arrival 900 reply 0 []

send_streaming_request_finishes_example :
    let (actions, end) = (send_streaming_request env codecs client model arrival 900 busy 0 []).1 in
    (in_fuel end ≡ true)
    × (posts actions ≤ 13)
    × (waits actions ≤ 180_500)
    × (on_time actions ≡ true)
send_streaming_request_finishes_example =
    send_streaming_request_finishes env codecs client model arrival 900 busy 0 []

short : (i : ℕ) → i < 1 → IsShortRefusal env codecs client model (reply i)
unfolding parse_reset_time reset_ms final_ms or_else parse_quota_reset_delay
    is_model_capacity_exhausted contains_any contains starts_with to_ascii_lowercase
short zero h = (
  200,
  [],
  refusal,
  codes "slow down",
  codes "BUSY",
  600,
  format_duration 600,
  refl,
  refl,
  refl,
  refl,
  refl,
  omega arith,
  refl,
)
short (suc i) h = absurd (omega arith)

send_request_perseveres_example :
    let (actions, end) = (send_request env codecs client model arrival 900 reply 0 []).1 in
    (end ≡ End.answer no_error) × (posts actions ≡ 2)
send_request_perseveres_example =
    send_request_perseveres env codecs client model arrival 900 reply no_error 100 1 [] refl
      (λ i. omega arith) short (200, codes "{}", refl, refl, refl, refl) (omega arith) (omega arith)

send_request-answer_example :
    (k : ℕ) × (posts (send_request env codecs client model arrival 900 reply 0 []).1.0 ≡ k + 1)
    × IsAnswer env codecs client model (reply k) no_error
send_request-answer_example =
    send_request-answer env codecs client model arrival 900 reply 0 [] no_error
      send_request_perseveres_example.0

parse_reset_time_bounds_example : (min 201 1000 ≤ 600) × (format_duration 600 ≡ format_duration 600)
unfolding parse_reset_time reset_ms final_ms or_else parse_quota_reset_delay
parse_reset_time_bounds_example =
    parse_reset_time_bounds externals (codes "slow down") 1000 600 (format_duration 600) refl

-- Three calls, one of them at a closed semaphore.
abbrev arrivals : List Arrival
arrivals =
    record { closed = false; reading = 1000; extra = 1 }
    ∷ record { closed = true; reading = 1402; extra = 0 }
    ∷ record { closed = false; reading = 1500; extra = 2 }
    ∷ []

permits-Apart_example : Apart client 900 (permits client arrivals 900)
unfolding permits
permits-Apart_example =
    permits-Apart client arrivals 900 (omega arith, (omega arith, (omega arith, tt)))
