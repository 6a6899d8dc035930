-- ===== src/Lib.antt =====
-- agcp is a proxy: a client that speaks the Anthropic Messages API calls it, and it answers from
-- Google's Cloud Code API. This library models the parts that hold its own logic.
--
-- A request's model name goes through `models.rs` (aliases, mapping rules, fallbacks). An account
-- is chosen from the store of `auth/accounts.rs`. `format/to_google.rs` converts the request: its
-- schemas are cleaned, and its calls get back the signatures they came with. The client of
-- `cloudcode/client.rs` sends it, and retries and moves on by what `cloudcode/rate_limit.rs` says
-- of a refusal. The answer, a stream of server-sent events, is cut into lines and converted by the
-- parser of `cloudcode/sse.rs`, which keeps thinking signatures in the caches of
-- `format/signature_cache.rs` for later requests; for a client that wants one answer,
-- `format/to_anthropic.rs` puts the events together. Whole answers are kept in `cache.rs`, and
-- requests and tokens are counted in `stats.rs`.
--
-- The files, all in src/ of the repository:
--   Prelude         helpers: tests on numbers, lists, texts as UTF-8 bytes, maps with text keys
--   Error           error.rs
--   Format          format/anthropic.rs and format/google.rs: the types; JSON values
--   Models          models.rs, and `MappingRule` of config.rs
--   SignatureCache  format/signature_cache.rs
--   ResponseCache   cache.rs
--   RateLimit       cloudcode/rate_limit.rs
--   Accounts        auth/accounts.rs
--   Sse             cloudcode/sse.rs
--   ToAnthropic     format/to_anthropic.rs: Build `build_response_from_events`, Convert
--                   `convert_response`
--   ToGoogle        format/to_google.rs: Schema `sanitize_schema`, Blocks the messages, Request
--                   `convert_request`
--   CloudCode       cloudcode/client.rs: Status the errors, Rounds the loop, Send the attempts at
--                   the endpoints, Permit `acquire_request_permit`, Calls `send_request` and
--                   `send_streaming_request`, the permit included
--   Stats           stats.rs
--   Server          server.rs: Checks of requests and events, Replies `error_to_response`,
--                   Credentials `get_account_credentials`, Outcome `track_request_outcome`,
--                   Thinking the answers put together from events
--   Tests           runs of the functions and of the theorems on concrete data
--
-- A method on `&mut self` becomes a function from the state to the new state and its result; the
-- global maps behind locks are arguments, and one critical section is one function. A function
-- keeps the name of the one that it models. Clock readings are arguments: one for each call where
-- the code reads once or the readings do not matter to each other, and one for each reading where
-- they do (RateLimit.Attempts). Instants and durations are nanoseconds, or seconds of the Unix
-- clock in Accounts. Counters wrap at their width, as in a release build. A `HashMap` is a list of
-- keys and values in which a key stands once. `f64` is a parameter with its operations
-- (Accounts.Floats), of which nothing is assumed, and so are the values, the reading and the
-- printing of serde_json where the code only passes values on (Sse.Parser.Externals,
-- Sse.Feed.Decoder, CloudCode.Send.Codecs), the regular expressions and the calendar
-- (RateLimit.Reset.ResetExternals), the Unicode case mappings and the HTTP call of a token refresh.
-- Where the code looks into JSON values they are a data type (Format.Json). What the upstream
-- replies to the n-th request of a call is a function of n, as are the time it takes and what other
-- requests do meanwhile to the table of attempts (CloudCode.Rounds.Env); a call returns its result
-- beside the list of what it did: posts, with the time of each, and sleeps. How long a call waits
-- for the semaphore and the lock in front of its permit is not modelled: a call is given the
-- instant at which it got through.
--
-- `feed` runs its loop on the length of the buffer as fuel: each round takes a delimiter off it.
-- `evict` of the response cache recurs on the order, which its loop pops. `trim` has the length of
-- its text as fuel, and a number is printed with as many digits as its type can have: 20 decimal
-- ones of an `u64`, 32 hexadecimal ones of an `u128`. The loop at one endpoint has a round for each
-- retry and one more as fuel, and for the streaming call one for each capacity retry too: the
-- theorems of CloudCode.Finish show that it never runs out. `sanitize_schema` has the size of its
-- schema, which ToGoogle.Enough shows to be enough, and the rotation of the rate history the
-- seconds that went by. All else is structural.
--
-- Not modelled: files, sockets, processes, HTTP, logging and the terminal interface; the OpenAI
-- formats, and the server's routing and its other handlers; the hash of the response cache's key;
-- `format_sse_event`; the summary of the statistics. A slice inside a character is a panic, as a
-- value (RateLimit.Duration).
pub mod Prelude
pub mod Error
pub mod Format
pub mod Models
pub mod SignatureCache
pub mod ResponseCache
pub mod RateLimit
pub mod Accounts
pub mod Sse
pub mod ToAnthropic
pub mod ToGoogle
pub mod CloudCode
pub mod Stats
pub mod Server
pub mod Tests
