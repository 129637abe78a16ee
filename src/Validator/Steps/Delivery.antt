-- ===== src/Validator/Steps/Delivery.antt =====
-- What the validator sends for a request, whatever the broker answers: the handler against a
-- description that first decides what to send, and then what becomes of it.
use mathlib.Core.List.{append_assoc, append-nil}
use playbook_dispatcher.Common.{
  String, Option, none, some, List, [], ◌∷◌, ◌++◌, ◌≡◌, refl, ap, ◌∙◌, ◌≢◌, Result, ok, err, ◌>>=◌,
  Fault,
}
use playbook_dispatcher.Model.{Uuid}
use playbook_dispatcher.Validator.Content.{
  ContentError, invalid, panic, ValidatedMessages, validate_content,
  playbook_sat_payload_header_value,
}
use playbook_dispatcher.Validator.Steps.{
  IngressRequest, validation_success, validation_failure, Produced, ProduceError,
  message_size_too_large, kafka_error, marshal_error, Outbox, Validator, ignore_kafka_produce_error,
  delivery, produce_message, response_message, validation_failed, get_correlation_id,
  update_message, step_correlation, step_content, validation_steps,
}

-- A message that the broker takes is delivered. An error is reported, unless the message is too large.
abbrev pub accepted_one : Option ProduceError → Produced → List Produced
accepted_one none m = m ∷ []
accepted_one (some e) m = []

abbrev pub fatal_one : Option ProduceError → List ProduceError
fatal_one none = []
fatal_one (some message_size_too_large) = []
fatal_one (some (kafka_error text)) = kafka_error text ∷ []
fatal_one (some (marshal_error text)) = marshal_error text ∷ []

abbrev pub accepted : Validator → List Produced → List Produced
accepted v [] = []
accepted v (m ∷ ms) = accepted_one (v.produce m) m ++ accepted v ms

abbrev pub fatal : Validator → List Produced → List ProduceError
fatal v [] = []
fatal v (m ∷ ms) = fatal_one (v.produce m) ++ fatal v ms

abbrev pub sent : Validator → List Produced → Outbox → Outbox
sent v ms out = record {
  delivered = out.delivered ++ accepted v ms;
  errors = out.errors ++ fatal v ms;
  requests = out.requests;
}

-- `Produce` fails with Kafka's errors only.
abbrev pub HasKafkaErrors : Validator → Type 0
HasKafkaErrors v = (m : Produced) (text : String) → v.produce m ≢ some (marshal_error text)

delivery_lem :
    (out : Outbox) (m : Produced) (o : Option ProduceError)
    → ((text : String) → o ≢ some (marshal_error text))
    → delivery out m o
      ≡ ok (record {
        delivered = out.delivered ++ accepted_one o m;
        errors = out.errors ++ fatal_one o;
        requests = out.requests;
      })
unfolding ignore_kafka_produce_error
delivery_lem out m none h = simp append-nil
delivery_lem out m (some message_size_too_large) h = simp append-nil
delivery_lem out m (some (kafka_error text)) h = simp append-nil
delivery_lem out m (some (marshal_error text)) h = absurd (h text refl)

pub produce_message_lem :
    (v : Validator) (m : Produced) (out : Outbox)
    → HasKafkaErrors v
    → produce_message v m out ≡ ok (sent v (m ∷ []) out)
unfolding produce_message
produce_message_lem v m out h =
    delivery_lem out m (v.produce m) (h m)
    ∙ simp (append-nil (accepted_one (v.produce m) m), append-nil (fatal_one (v.produce m)))

sent-sent :
    (v : Validator) (m n : Produced) (out : Outbox)
    → sent v (n ∷ []) (sent v (m ∷ []) out) ≡ sent v (m ∷ n ∷ []) out
sent-sent v m n out = simp (append_assoc, append-nil)

produce_two :
    (v : Validator) (m n : Produced) (out : Outbox)
    → HasKafkaErrors v
    → (produce_message v m out >>= produce_message v n) ≡ ok (sent v (m ∷ n ∷ []) out)
produce_two v m n out h =
    rw (produce_message_lem v m out h) (produce_message_lem v n (sent v (m ∷ []) out) h)
    ∙ ap ok (sent-sent v m n out)

-- What the content of a payload comes to.
abbrev pub validated : Validator → String → String → Result ContentError (ValidatedMessages × Uuid)
validated v request_type payload =
    validate_content v.decoder v.limits request_type payload >>= λ events.
    get_correlation_id v.decoder events playbook_sat_payload_header_value >>= λ id. ok (events, id)

abbrev pub reply :
    Validator
    → IngressRequest
    → String
    → Result ContentError (ValidatedMessages × Uuid)
    → Result Fault (List Produced)
reply v request request_type (ok (events, id)) = ok (
    response_message v request validation_success
    ∷ update_message v request request_type events id
    ∷ [])
reply v request request_type (err (invalid e)) =
    ok (response_message v request validation_failure ∷ [])
reply v request request_type (err (panic f)) = err f

step_correlation_lem :
    (v : Validator) (request : IngressRequest) (request_type : String) (out : Outbox)
    (events : ValidatedMessages) (m : Result ContentError Uuid)
    → HasKafkaErrors v
    → step_correlation v request request_type events m out
      ≡ (reply v request request_type (m >>= λ id. ok (events, id)) >>= λ ms. ok (sent v ms out))
unfolding validation_failed
step_correlation_lem v request request_type out events (ok id) h = produce_two v _ _ out h
step_correlation_lem v request request_type out events (err (invalid e)) h =
    produce_message_lem v _ out h
step_correlation_lem v request request_type out events (err (panic f)) h = refl

step_content_lem :
    (v : Validator) (request : IngressRequest) (request_type : String) (out : Outbox)
    (m : Result ContentError ValidatedMessages)
    → HasKafkaErrors v
    → step_content v request request_type m out ≡ (
        reply v request request_type (
          m >>= λ events.
          get_correlation_id v.decoder events playbook_sat_payload_header_value >>= λ id.
          ok (events, id))
        >>= λ ms. ok (sent v ms out))
unfolding validation_failed
step_content_lem v request request_type out (ok events) h =
    step_correlation_lem v request request_type out events _ h
step_content_lem v request request_type out (err (invalid e)) h = produce_message_lem v _ out h
step_content_lem v request request_type out (err (panic f)) h = refl

-- Where the producer fails with Kafka's errors only, the validator answers a payload whose content
-- and correlation id are valid with a success response and then the update of the run, and any other
-- one with one failure response and no update, unless validating it panics. A message that the broker
-- refuses is lost: the later one is sent all the same, and its error is reported unless the message
-- is too large. No request is fetched again.
pub validation_steps_lem :
    (v : Validator) (request : IngressRequest) (request_type payload : String) (out : Outbox)
    → HasKafkaErrors v
    → validation_steps v request request_type payload out ≡ (
        reply v request request_type (validated v request_type payload) >>= λ ms.
        ok (sent v ms out))
unfolding validation_steps
validation_steps_lem v request request_type payload out h =
    step_content_lem v request request_type out
      (validate_content v.decoder v.limits request_type payload) h
