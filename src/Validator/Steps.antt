-- ===== src/Validator/Steps.antt =====
-- The handler of the validator from a request to what it produces, without `validateContent`, and
-- `GetCorrelationId` of internal/common/model/message/utils.go.
--
-- The broker is `produce`: what `kafkaUtils.Produce` returns for a message. The fetched archive is an
-- argument (`payload`); a fetch that fails drops the request. What the goroutines send to each other
-- is kept in `Outbox`: delivered messages, errors for the main loop, and requests to fetch.
pub mod Delivery
pub mod Receipt
pub mod RoundTrip
use playbook_dispatcher.Common.{
  ℕ, eqb, Bool, true, false, ◌||◌, String, Option, none, some, List, [], ◌∷◌, ◌++◌, if◌then◌else◌,
  ◌==◌, split, contains, Result, ok, err, ◌>>=◌, Fault, index_out_of_range, wrong_type,
}
use playbook_dispatcher.Model.{
  Uuid, RunnerEvent, SatEvent, EventData, Integer, plus, minus, integer_lt,
}
use playbook_dispatcher.Kafka.{
  headers, header_request_id, header_correlation_id, header_request_type, get_header, Message,
}
use playbook_dispatcher.Validator.Content.{
  Limits, Decoder, ContentError, invalid, panic, ValidatedMessages, validate_content,
  playbook_sat_payload_header_value,
}

pub record IngressRequest : Type 0 where
  pub account : String
  pub category : String
  pub metadata : List (String × String)
  pub request_id : String
  pub org_id : String
  pub service : String
  pub size : Integer
  pub url : String
  pub id : String
  pub b64_identity : String
  pub timestamp : String

pub data Validation : Type 0 where
  validation_success validation_failure : Validation

pub record RunUpdate {ℓ} (E : Type ℓ) : Type ℓ where
  pub org_id : String
  pub b64_identity : String
  pub request_id : String
  pub upload_timestamp : String
  pub events : List E

-- The values that are marshalled into a message.
pub data Value : Type 0 where
  response : IngressRequest → Validation → Value
  runner_update : RunUpdate RunnerEvent → Value
  sat_update : RunUpdate SatEvent → Value

pub record Produced : Type 0 where
  pub topic : String
  pub value : Value
  pub key : String
  pub headers : List (String × String)

-- The errors of `kafkaUtils.Produce`: those of Kafka, and that of `json.Marshal`.
pub data ProduceError : Type 0 where
  message_size_too_large : ProduceError
  kafka_error : String → ProduceError
  marshal_error : String → ProduceError

pub record Outbox : Type 0 where
  pub delivered : List Produced
  pub errors : List ProduceError
  pub requests : List (String × IngressRequest)

pub record Validator : Type 0 where
  pub produce : Produced → Option ProduceError
  pub unmarshal_request : String → Option IngressRequest
  pub decoder : Decoder
  pub limits : Limits
  pub ingress_response_topic : String
  pub dispatcher_response_topic : String
  pub artifact_max_size : ℕ
  pub blocklist_org_ids : String

-- `ignoreKafkaProduceError`, whose type assertion panics on an error that is not Kafka's.
unfoldable pub ignore_kafka_produce_error : ProduceError → Result Fault Bool
ignore_kafka_produce_error message_size_too_large = ok true
ignore_kafka_produce_error (kafka_error e) = ok false
ignore_kafka_produce_error (marshal_error e) = err wrong_type

abbrev pub report : Outbox → ProduceError → Bool → Outbox
report out e ignored = if ignored then out else record out { errors = out.errors ++ e ∷ [] }

abbrev pub delivery : Outbox → Produced → Option ProduceError → Result Fault Outbox
delivery out m none = ok (record out { delivered = out.delivered ++ m ∷ [] })
delivery out m (some e) = ignore_kafka_produce_error e >>= λ ignored. ok (report out e ignored)

-- `produceMessage`
unfoldable pub produce_message : Validator → Produced → Outbox → Result Fault Outbox
produce_message v m out = delivery out m (v.produce m)

abbrev pub response_message : Validator → IngressRequest → Validation → Produced
response_message v request validation = record {
  topic = v.ingress_response_topic;
  value = response request validation;
  key = request.account;
  headers = [];
}

-- `validationFailed`
unfoldable pub validation_failed : Validator → IngressRequest → Outbox → Result Fault Outbox
unfolding produce_message
validation_failed v request out =
    produce_message v (response_message v request validation_failure) out

-- `GetCorrelationId`
abbrev pub parsed : Decoder → String → Result ContentError Uuid
parsed d text = elim (d.parse_uuid text) [ none ↦ err (invalid "invalid UUID") | some u ↦ ok u ]

abbrev pub event_executor_on_start : String
event_executor_on_start = "executor_on_start"

abbrev pub start_correlation_id : RunnerEvent → Option String
start_correlation_id event =
    if event.event == event_executor_on_start
    then elim event.event_data [ none ↦ none | some found ↦ found.crc_dispatcher_correlation_id ]
    else none

unfoldable pub find_correlation_id : Decoder → List RunnerEvent → Result ContentError Uuid
find_correlation_id d [] = err (invalid "Correlation id not found")
find_correlation_id d (e ∷ es) =
    let rest = find_correlation_id d es in
    elim (start_correlation_id e) [ none ↦ rest | some text ↦ parsed d text ]

abbrev pub first_correlation_id : Decoder → List SatEvent → Result ContentError Uuid
first_correlation_id d [] = err (panic index_out_of_range)
first_correlation_id d (e ∷ es) = parsed d e.correlation_id

unfoldable pub get_correlation_id : Decoder → ValidatedMessages → String → Result ContentError Uuid
unfolding find_correlation_id
get_correlation_id d events playbook_sat_type =
    if events.playbook_type == playbook_sat_type
    then first_correlation_id d events.playbook_sat
    else find_correlation_id d events.playbook

abbrev pub update_of {ℓ} : {E : Type ℓ} → IngressRequest → List E → RunUpdate E
update_of request events = record {
  org_id = request.org_id;
  b64_identity = request.b64_identity;
  request_id = request.request_id;
  upload_timestamp = request.timestamp;
  events = events;
}

abbrev pub update_value : IngressRequest → String → ValidatedMessages → Value
update_value request request_type events =
    if request_type == playbook_sat_payload_header_value
    then sat_update (update_of request events.playbook_sat)
    else runner_update (update_of request events.playbook)

-- `Headers` gets six texts here, so it does not panic.
abbrev pub update_headers : IngressRequest → String → Uuid → List (String × String)
update_headers request request_type id =
    elim (headers (
      header_request_id ∷ request.request_id ∷ header_correlation_id ∷ id ∷ header_request_type
      ∷ request_type ∷ [])) [ none ↦ [] | some hs ↦ hs ]

abbrev pub update_message :
    Validator → IngressRequest → String → ValidatedMessages → Uuid → Produced
update_message v request request_type events id = record {
  topic = v.dispatcher_response_topic;
  value = update_value request request_type events;
  key = id;
  headers = update_headers request request_type id;
}

-- `validationSteps`, from the outcomes of `validateContent` and of `GetCorrelationId` on.
abbrev pub step_correlation :
    Validator
    → IngressRequest
    → String
    → ValidatedMessages
    → Result ContentError Uuid
    → Outbox
    → Result Fault Outbox
step_correlation v request request_type events (err (invalid e)) out =
    validation_failed v request out
step_correlation v request request_type events (err (panic f)) out = err f
step_correlation v request request_type events (ok id) out =
    produce_message v (response_message v request validation_success) out
    >>= produce_message v (update_message v request request_type events id)

abbrev pub step_content :
    Validator
    → IngressRequest
    → String
    → Result ContentError ValidatedMessages
    → Outbox
    → Result Fault Outbox
step_content v request request_type (err (invalid e)) out = validation_failed v request out
step_content v request request_type (err (panic f)) out = err f
step_content v request request_type (ok events) out =
    step_correlation v request request_type events
      (get_correlation_id v.decoder events playbook_sat_payload_header_value) out

unfoldable pub validation_steps :
    Validator → IngressRequest → String → String → Outbox → Result Fault Outbox
unfolding get_correlation_id
validation_steps v request request_type payload out =
    step_content v request request_type (validate_content v.decoder v.limits request_type payload)
      out

-- `IsOrgIdBlocklisted`
unfoldable pub is_org_id_blocklisted : String → String → Bool
is_org_id_blocklisted blocklist org_id = contains org_id (split b',' blocklist)

abbrev is_zero : Integer → Bool
is_zero (plus n) = eqb n 0
is_zero (minus n) = false

-- `validateRequest`: whether it returns an error.
unfoldable pub is_rejected_size : Validator → IngressRequest → Bool
is_rejected_size v request =
    is_zero request.size || integer_lt (plus v.artifact_max_size) request.size

-- `onMessage`, without a request where the message does not unmarshal.
abbrev pub receive : Validator → String → Option IngressRequest → Outbox → Result Fault Outbox
receive v request_type none out = ok out
receive v request_type (some request) out =
    if is_org_id_blocklisted v.blocklist_org_ids request.org_id
    then ok out
    else (if is_rejected_size v request
        then validation_failed v request out
        else ok (record out { requests = out.requests ++ (request_type, request) ∷ [] }))

abbrev pub request_type_of : Message → String
request_type_of msg = elim (get_header header_request_type msg.headers) [ none ↦ "" | some t ↦ t ]

unfoldable pub on_request : Validator → Message → Outbox → Result Fault Outbox
unfolding validation_failed is_org_id_blocklisted is_rejected_size
on_request v msg out = receive v (request_type_of msg) (v.unmarshal_request msg.value) out
