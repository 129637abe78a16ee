-- ===== src/Tests/Uploads.antt =====
-- The validator on a payload of two lines, and on one that is too large.
use playbook_dispatcher.Common.{
  ◌≡◌, refl, true, String, Option, none, some, [], ◌∷◌, ok, ◌>>=◌, length, if◌then◌else◌, ◌==◌, All,
  ◌≢◌,
}
use playbook_dispatcher.Model.{plus, RunnerEvent}
use playbook_dispatcher.Kafka.{filter_by_header, header_request_type, Message}
use playbook_dispatcher.Validator.Content.{
  Limits, Decoder, validate_content, ValidatedMessages, playbook_sat_payload_header_value,
}
use playbook_dispatcher.Validator.Content.Truncation.{
  each_line, runner_line, sat_line, is_big, lines_of, runner_result, sat_result,
  validate_content_runner, validate_content_sat,
}
use playbook_dispatcher.Validator.Content.Bound.{Satisfies, HasShortStdout, validate_content_bound}
use playbook_dispatcher.Validator.Steps.{
  IngressRequest, RunUpdate, Validator, ProduceError, message_size_too_large, marshal_error, Outbox,
  validation_steps, on_request, request_type_of, Value, runner_update, sat_update, response,
}
use playbook_dispatcher.Validator.Steps.Delivery.{
  HasKafkaErrors, validated, reply, sent, validation_steps_lem,
}
use playbook_dispatcher.Validator.Steps.Receipt.{IsReceived, on_request-IsReceived}
use playbook_dispatcher.Validator.Steps.RoundTrip.{arrives, update-on_message}
use playbook_dispatcher.ResponseConsumer.Handler.Transactions.{on_message, handle_info}
use playbook_dispatcher.ResponseConsumer.Handler.Messages.{Env, runner_message_header_value}
use playbook_dispatcher.Tests.Data.{
  start, stats, playbook_events, open_events, later_on_a, store, env_with, message_of,
}

abbrev decoder : Decoder
decoder = record {
  validate_runner_bytes = λ line. ok [];
  validate_sat_bytes = λ line. ok [];
  unmarshal_runner_event = λ line. ok (if line == "start" then start else stats);
  unmarshal_sat_event = λ line. ok later_on_a;
  parse_uuid = λ text. some text;
}

abbrev limits : Limits
limits = record { max_message_size = 8; max_stdout_size = 2; truncate_after_number_of_lines = 0 }

abbrev payload : String
payload = "start\nstats\nstats\nstats\n"

validate_content_runner_example : validate_content decoder limits "playbook" payload ≡ (
    each_line
      (runner_line decoder limits (is_big limits payload) (length (lines_of payload)))
      0
      (lines_of payload)
    >>= runner_result "playbook")
validate_content_runner_example = validate_content_runner decoder limits "playbook" payload refl

validate_content_sat_example :
    validate_content decoder limits playbook_sat_payload_header_value payload ≡ (
      each_line (sat_line decoder limits (is_big limits payload)) 0 (lines_of payload)
      >>= sat_result playbook_sat_payload_header_value)
validate_content_sat_example = validate_content_sat decoder limits payload

validate_content_bound_example :
    Satisfies
      (λ messages. All (HasShortStdout limits) messages.playbook)
      (validate_content decoder limits "playbook" payload)
validate_content_bound_example = validate_content_bound decoder limits "playbook" payload refl refl

abbrev request : IngressRequest
request = record {
  account = "a1";
  category = "playbook";
  metadata = [];
  request_id = "q1";
  org_id = "o1";
  service = "playbook";
  size = plus 24;
  url = "https://example.com/upload";
  id = "";
  b64_identity = "";
  timestamp = "2024-01-01T00:00:00Z";
}

-- A broker that takes responses, and finds updates too large.
abbrev answer : Value → Option ProduceError
answer (response r v) = none
answer _ = some message_size_too_large

abbrev validator : Validator
validator = record {
  produce = λ m. answer m.value;
  unmarshal_request = λ value. some request;
  decoder = decoder;
  limits = limits;
  ingress_response_topic = "validation";
  dispatcher_response_topic = "updates";
  artifact_max_size = 23;
  blocklist_org_ids = "o2,o3";
}

answers_with_kafka : HasKafkaErrors validator
answers_with_kafka m text h = never m.value h
  where
    never : (v : Value) → answer v ≢ some (marshal_error text)
    never (response r v) e = cc
    never (runner_update u) e = cc
    never (sat_update u) e = cc

abbrev empty : Outbox
empty = record { delivered = []; errors = []; requests = [] }

validation_steps_lem_example : validation_steps validator request "playbook" payload empty ≡ (
    reply validator request "playbook" (validated validator "playbook" payload) >>= λ ms.
    ok (sent validator ms empty))
validation_steps_lem_example =
    validation_steps_lem validator request "playbook" payload empty answers_with_kafka

abbrev upload : Message
upload = message_of "playbook" "upload"

on_request-IsReceived_example :
    IsReceived validator
      (request_type_of upload)
      (some request)
      empty
      (on_request validator upload empty)
on_request-IsReceived_example = on_request-IsReceived validator upload empty answers_with_kafka

abbrev content : ValidatedMessages
content = record {
  playbook_type = "playbook";
  playbook = playbook_events;
  playbook_sat = open_events;
}

-- Updates are marshalled to their org here, and read back with the events of the tests.
abbrev org_text : Value → String
org_text (response r v) = ""
org_text (runner_update u) = u.org_id
org_text (sat_update u) = u.org_id

abbrev reader : Env
reader = record (env_with none) {
  unmarshal_runner = λ value. some (record { org_id = value; events = playbook_events });
}

reads_back :
    (u : RunUpdate RunnerEvent)
    → u.events ≡ playbook_events
    → reader.unmarshal_runner (org_text (runner_update u))
      ≡ some (record { org_id = u.org_id; events = u.events })
reads_back u e = rw e refl

update-on_message_example :
    (filter_by_header header_request_type
        ("playbook" ∷ "playbook-sat" ∷ [])
        (arrives org_text validator request runner_message_header_value content "c1")
      ≡ true)
    × (on_message reader
          (arrives org_text validator request runner_message_header_value content "c1")
          store
        ≡ handle_info reader store "c1" runner_message_header_value
            (some (record { org_id = "o1"; runner = some playbook_events; sat = none })))
update-on_message_example =
    update-on_message reader org_text validator request content "c1" store refl reads_back
