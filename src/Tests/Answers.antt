-- ===== src/Tests/Answers.antt =====
-- Answers put together from the events of a stream, and converted whole.
use agcp.Prelude.{◌∷◌, ◌++◌, ◌≡◌, refl, some, none, [], List}
use agcp.Prelude.Text.{Bytes, codes}
use agcp.Sse.Parser.{new}
use agcp.Sse.Parts.{process_part, process_thought, process_text, process_function_call, start_tool}
use agcp.Sse.Response.{
  process_responses, process_response, respond, convert, start_message, process_parts, finish,
  parts_of, blocked, block_reason_of, first, use_metadata, finish_reason_of,
}
use agcp.Sse.Protocol.{phase}
use agcp.Sse.Stream.{responses_follow_protocol}
use agcp.Sse.Content.{items}
use agcp.ToAnthropic.Build.{build_response_from_events}
use agcp.ToAnthropic.Calls.{calls_of, received, Matches}
use agcp.ToAnthropic.Held.{blocks_held, items_held}
use agcp.ToAnthropic.Collect.{build_response_from_events-items}
use agcp.ToAnthropic.EndToEnd.{all_items}
use agcp.Server.Checks.{first_error, check_stream_errors}
use agcp.Server.Thinking.{answer_events, answer_events-process_responses}
use agcp.Format.Anthropic.{StreamEvent, MessagesResponse}
use agcp.ToAnthropic.Convert.{convert_response, convert_response-convert}
use agcp.Tests.Stream.{texts, no_caches, response_of, thought, text, call, clock, responses, model}

-- The stream was cut before its end.
build_response_from_events-items_example :
    let r = process_responses texts responses (new model 7 no_caches) in
    let content = (build_response_from_events some r.1 model (codes "msg_1")).content in
    (blocks_held content ≡ items_held (items r.1))
    × Matches (calls_of content) (received some (items r.1) [])
build_response_from_events-items_example =
    let r = process_responses texts responses (new model 7 no_caches) in
    build_response_from_events-items some r.1 (phase r.0) model (codes "msg_1")
      (responses_follow_protocol texts model 7 no_caches responses)

abbrev events : List (StreamEvent Bytes)
events =
    let r = process_responses texts responses (new model 7 no_caches) in r.1 ++ finish texts r.0

abbrev answer : MessagesResponse Bytes
answer = build_response_from_events some events model (codes "msg_1")

-- The body had one byte.
answer_events-process_responses_example :
    (blocks_held answer.content ≡ items_held (all_items texts responses))
    × Matches (calls_of answer.content) (received some (all_items texts responses) [])
    × (first_error events ≡ none)
unfolding answer_events check_stream_errors first_error process_responses process_response respond
    convert start_message process_parts process_part process_thought process_text
    process_function_call blocked block_reason_of first use_metadata finish_reason_of parts_of new
    start_tool finish build_response_from_events
answer_events-process_responses_example =
    answer_events-process_responses texts some (λ s. s) 7 model (codes "msg_1") (codes "x")
      no_caches responses answer refl refl

convert_response-convert_example :
    let response = response_of (thought ∷ text ∷ call ∷ []) (some (codes "STOP")) in
    let answer = (convert_response texts clock response model (codes "msg_1") no_caches).1 in
    let events =
      (convert texts clock (first texts response.candidates) (new model 7 no_caches)).1 in
    ((blocks_held answer.content).0 ≡ (items_held (items events)).0)
    × ((blocks_held answer.content).1 ≡ (items_held (items events)).1)
convert_response-convert_example =
    convert_response-convert texts clock
      (response_of (thought ∷ text ∷ call ∷ []) (some (codes "STOP"))) model (codes "msg_1")
      no_caches (new model 7 no_caches)
