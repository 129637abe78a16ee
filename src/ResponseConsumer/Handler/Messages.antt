-- ===== src/ResponseConsumer/Handler/Messages.antt =====
-- What `onMessage` of internal/response-consumer/handler.go reads: the headers and the value of a
-- message. The decoding of the value, the parsing and making of uuids, and the failures of the
-- database are what `Env` holds; `new_uuid n` is the `n`-th uuid made. `db_fails` says for each
-- statement whether the database refuses it, and with which error.
use playbook_dispatcher.Common.{ℕ, String, Option, none, some, List, if◌then◌else◌, ◌==◌, ◌>>=?◌}
use playbook_dispatcher.Model.{Uuid, RunnerEvent, SatEvent}
use playbook_dispatcher.Kafka.{
  Message, get_header, header_request_id, header_correlation_id, header_request_type,
}

abbrev pub runner_message_header_value : String
runner_message_header_value = "playbook"

abbrev pub sat_message_header_value : String
sat_message_header_value = "playbook-sat"

pub record RunnerMessage : Type 0 where
  pub org_id : String
  pub events : List RunnerEvent

pub record SatMessage : Type 0 where
  pub org_id : String
  pub events : List SatEvent

pub data DbCall : Type 0 where
  select_run update_run insert_hosts : DbCall
  update_host : ℕ → DbCall

pub record Env : Type 0 where
  pub parse_uuid : String → Option Uuid
  pub new_uuid : ℕ → Uuid
  pub unmarshal_runner : String → Option RunnerMessage
  pub unmarshal_sat : String → Option SatMessage
  pub db_fails : DbCall → Option String

-- `getHeaders`: the correlation id and the request type. `none` is any of its errors.
unfoldable pub get_headers : Env → Message → Option (Uuid × String)
unfolding get_header
get_headers env msg = get_header header_request_id msg.headers >>=? λ request_id.
    get_header header_correlation_id msg.headers >>=? λ raw.
    env.parse_uuid raw >>=? λ correlation_id.
    get_header header_request_type msg.headers >>=? λ request_type.
    some (correlation_id, request_type)

pub record ParsedMessageInfo : Type 0 where
  pub org_id : String
  pub runner : Option (List RunnerEvent)
  pub sat : Option (List SatEvent)

unfoldable pub parse_message : Env → String → Message → Option ParsedMessageInfo
parse_message env request_type msg =
    if request_type == runner_message_header_value
    then (env.unmarshal_runner msg.value >>=? λ m.
        some (record { org_id = m.org_id; runner = some m.events; sat = none }))
    else (env.unmarshal_sat msg.value >>=? λ m.
        some (record { org_id = m.org_id; runner = none; sat = some m.events }))
