-- ===== src/Validator/Steps/RoundTrip.antt =====
-- From the validator to the consumer of its updates: what `validationSteps` sends is what `onMessage`
-- of internal/response-consumer/handler.go reads.
use playbook_dispatcher.Common.{String, some, none, [], ◌∷◌, ◌≡◌, refl, true}
use playbook_dispatcher.Model.{Uuid, Store, RunnerEvent, SatEvent}
use playbook_dispatcher.Kafka.{
  Message, headers, get_header, filter_by_header, header_pairs, zero_headers, header_request_type,
}
use playbook_dispatcher.Validator.Content.{ValidatedMessages, playbook_sat_payload_header_value}
use playbook_dispatcher.Validator.Steps.{
  IngressRequest, RunUpdate, Value, runner_update, sat_update, Validator, update_of, update_message,
}
use playbook_dispatcher.ResponseConsumer.Handler.Messages.{
  Env, get_headers, parse_message, runner_message_header_value,
}
use playbook_dispatcher.ResponseConsumer.Handler.Transactions.{handle_info, on_message}

-- The message that arrives.
abbrev pub arrives :
    (Value → String) → Validator → IngressRequest → String → ValidatedMessages → Uuid → Message
arrives marshal v request request_type events id =
    let m = update_message v request request_type events id in
    record { headers = m.headers; value = marshal m.value }

get_headers-update :
    (env : Env) (marshal : Value → String) (v : Validator) (request : IngressRequest)
    (request_type : String) (events : ValidatedMessages) (id : Uuid)
    → env.parse_uuid id ≡ some id
    → get_headers env (arrives marshal v request request_type events id) ≡ some (id, request_type)
unfolding get_headers headers header_pairs zero_headers get_header
get_headers-update env marshal v request request_type events id p = rw (p) refl

-- The update of a runner's run that the validator sends passes the consumer's filter, and the consumer
-- handles it as a message of the request's org that carries the correlation id, the request type and the
-- events of the content, where the id parses to itself and every update with these events that is
-- marshalled unmarshals to its own org and events.
pub update-on_message :
    (env : Env) (marshal : Value → String) (v : Validator) (request : IngressRequest)
    (events : ValidatedMessages) (id : Uuid) (store : Store)
    → env.parse_uuid id ≡ some id
    → ((u : RunUpdate RunnerEvent)
        → u.events ≡ events.playbook
        → env.unmarshal_runner (marshal (runner_update u))
          ≡ some (record { org_id = u.org_id; events = u.events }))
    → (filter_by_header header_request_type
          ("playbook" ∷ "playbook-sat" ∷ [])
          (arrives marshal v request runner_message_header_value events id)
        ≡ true)
      × (on_message env (arrives marshal v request runner_message_header_value events id) store
          ≡ handle_info env store id runner_message_header_value (
              some (record { org_id = request.org_id; runner = some events.playbook; sat = none })))
unfolding on_message parse_message filter_by_header headers header_pairs zero_headers get_header
update-on_message env marshal v request events id store p r = (
  refl,
  rw (get_headers-update env marshal v request runner_message_header_value events id p)
      (rw (r (update_of request events.playbook) refl) refl),
)

-- The same of an update of Satellite.
pub sat_update-on_message :
    (env : Env) (marshal : Value → String) (v : Validator) (request : IngressRequest)
    (events : ValidatedMessages) (id : Uuid) (store : Store)
    → env.parse_uuid id ≡ some id
    → ((u : RunUpdate SatEvent)
        → u.events ≡ events.playbook_sat
        → env.unmarshal_sat (marshal (sat_update u))
          ≡ some (record { org_id = u.org_id; events = u.events }))
    → (filter_by_header header_request_type
          ("playbook" ∷ "playbook-sat" ∷ [])
          (arrives marshal v request playbook_sat_payload_header_value events id)
        ≡ true)
      × (on_message env
            (arrives marshal v request playbook_sat_payload_header_value events id)
            store
          ≡ handle_info env store id playbook_sat_payload_header_value (
              some (record {
                org_id = request.org_id;
                runner = none;
                sat = some events.playbook_sat;
              })))
unfolding on_message parse_message filter_by_header headers header_pairs zero_headers get_header
sat_update-on_message env marshal v request events id store p r = (
  refl,
  rw (get_headers-update env marshal v request playbook_sat_payload_header_value events id p)
      (rw (r (update_of request events.playbook_sat) refl) refl),
)
