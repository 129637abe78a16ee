-- ===== src/Validator/Content.antt =====
-- `validateContent` and the functions it calls. The JSON schema and the decoder of an event are what
-- `Decoder` holds. A cut `text[0:n]` keeps the characters that lie whole in the first `n` bytes.
--
-- `truncated` is one variable, whose address is stored in every event that is truncated. So an event
-- refers to its own text or to that variable (`TextRef`), and is read once the loop is over.
pub mod Truncation
pub mod Bound
use Prim.Native.Char.{code}
use Prim.Native.String
use Prim.Native.String.{len, slice}
use playbook_dispatcher.Common.{
  ℕ, suc, ◌+◌, Bool, true, false, ◌&&◌, ◌||◌, not, String, Option, none, some, List, [], ◌∷◌, map,
  if◌then◌else◌, ltb, leb, eqb, ◌==◌, concat, split, length, Result, ok, err, ◌>>=◌, Fault,
  nil_dereference, index_out_of_range, invalid_uuid,
}
use playbook_dispatcher.Model.{Uuid, RunnerEvent, SatEvent}

pub record Limits : Type 0 where
  pub max_message_size : ℕ
  pub max_stdout_size : ℕ
  pub truncate_after_number_of_lines : ℕ

pub record Decoder : Type 0 where
  pub validate_runner_bytes : String → Result String (List String)
  pub validate_sat_bytes : String → Result String (List String)
  pub unmarshal_runner_event : String → Result String RunnerEvent
  pub unmarshal_sat_event : String → Result String SatEvent
  pub parse_uuid : String → Option Uuid

pub data ContentError : Type 0 where
  invalid : String → ContentError
  panic : Fault → ContentError

abbrev pub playbook_sat_payload_header_value : String
playbook_sat_payload_header_value = "playbook-sat"

-- `unicode.IsSpace`
abbrev is_space : ℕ → Bool
is_space c =
    (leb 9 c && leb c 13)
    || eqb c 32
    || eqb c 133
    || eqb c 160
    || eqb c 5760
    || (leb 8192 c && leb c 8202)
    || eqb c 8232
    || eqb c 8233
    || eqb c 8239
    || eqb c 8287
    || eqb c 12288

-- `len(strings.TrimSpace(line)) == 0`
unfoldable pub is_blank : String → Bool
is_blank String.[] = true
is_blank (String.◌∷◌ c s) = is_space (code c) && is_blank s

-- `validateRunResponseWithSchema` and `validateSatRunResponseWithSchema`
abbrev pub first_error {ℓ} :
    {E : Type ℓ} → (String → Result String E) → String → List String → Result String E
first_error unmarshal line [] = unmarshal line
first_error unmarshal line (e ∷ es) = err e

abbrev pub as_invalid {ℓ} : {A : Type ℓ} → Result String A → Result ContentError A
as_invalid (ok a) = ok a
as_invalid (err e) = err (invalid e)

unfoldable pub validate_run_response : Decoder → String → Result ContentError RunnerEvent
validate_run_response d line =
    as_invalid (d.validate_runner_bytes line >>= first_error d.unmarshal_runner_event line)

-- `validateSatHostUUID`
unfoldable pub validate_sat_host_uuid : Decoder → Option String → Result ContentError (Unit {0})
validate_sat_host_uuid d none = ok tt
validate_sat_host_uuid d (some host) = elim (d.parse_uuid host) [
  | none ↦ err (invalid "invalid UUID")
  | some id ↦ ok tt
]

unfoldable pub validate_sat_run_response : Decoder → String → Result ContentError SatEvent
unfolding validate_sat_host_uuid
validate_sat_run_response d line = do
  event ← as_invalid (d.validate_sat_bytes line >>= first_error d.unmarshal_sat_event line)
  validate_sat_host_uuid d event.host >>= λ _. ok event

-- What `Stdout` and `Console` point to.
pub data TextRef : Type 0 where
  own : String → TextRef
  shared : TextRef

abbrev pub resolve : String → Option TextRef → Option String
resolve truncated none = none
resolve truncated (some (own text)) = some text
resolve truncated (some shared) = some truncated

-- "There could be one big stdout"
unfoldable pub shorten : ℕ → Option String → Option TextRef
shorten max none = none
shorten max (some text) =
    some (own (if ltb max (len text) then concat (slice text 0 max) "..." else text))

abbrev pub owned : Option String → Option TextRef
owned none = none
owned (some text) = some (own text)

-- What a round leaves in `truncated`, and the output of its event.
abbrev pub Round : Type 0
Round = String × Option TextRef

-- The branch for the line `i` of `n` of a runner.
unfoldable pub runner_output :
    Limits → Bool → ℕ → ℕ → String → RunnerEvent → Result ContentError Round
unfolding shorten
runner_output limits truncate_data n i truncated event =
    if truncate_data
    then (if ltb limits.truncate_after_number_of_lines i && ltb (i + 2) n
        then ok ("", some shared)
        else ok (truncated, shorten limits.max_stdout_size event.stdout))
    else ok (truncated, owned event.stdout)

-- The branch for a line of Satellite. Where `Console` is nil, the test
-- `Console != nil || *Console != ""` dereferences it.
abbrev pub sat_late_output : Option String → Result ContentError Round
sat_late_output none = err (panic nil_dereference)
sat_late_output (some text) = ok ("", some shared)

unfoldable pub sat_output : Limits → Bool → ℕ → ℕ → String → SatEvent → Result ContentError Round
unfolding shorten
sat_output limits truncate_data n i truncated event =
    if truncate_data
    then (if ltb limits.truncate_after_number_of_lines i
        then sat_late_output event.console
        else ok (truncated, shorten limits.max_stdout_size event.console))
    else ok (truncated, owned event.console)

-- The loop over the lines: what is left in `truncated`, and the events with their outputs.
module _ {E : Type 0} (validate : String → Result ContentError E)
    (output : ℕ → String → E → Result ContentError Round) where
  unfoldable pub content_loop :
      ℕ → String → List String → Result ContentError (String × List (E × Option TextRef))
  content_loop i truncated [] = ok (truncated, [])
  content_loop i truncated (line ∷ lines) =
      let skip = content_loop (suc i) truncated lines in
      let take =
        (validate line >>= λ event. output i truncated event >>= λ (truncated', text).
        content_loop (suc i) truncated' lines >>= λ (last, events).
        ok (last, (event, text) ∷ events)) in
      if is_blank line then skip else take

pub record ValidatedMessages : Type 0 where
  pub playbook_type : String
  pub playbook : List RunnerEvent
  pub playbook_sat : List SatEvent

abbrev pub with_stdout : String → RunnerEvent × Option TextRef → RunnerEvent
with_stdout truncated (event, text) = record event { stdout = resolve truncated text }

abbrev pub with_console : String → SatEvent × Option TextRef → SatEvent
with_console truncated (event, text) = record event { console = resolve truncated text }

abbrev pub is_empty {ℓ} : {A : Type ℓ} → List A → Bool
is_empty [] = true
is_empty (x ∷ xs) = false

-- `if len(events.PlaybookSat) == 0 && len(events.Playbook) == 0`
abbrev pub require_events : ValidatedMessages → Result ContentError ValidatedMessages
require_events events =
    if is_empty events.playbook_sat && is_empty events.playbook
    then err (invalid "No events found")
    else ok events

abbrev pub runner_messages :
    String → String × List (RunnerEvent × Option TextRef) → ValidatedMessages
runner_messages request_type (last, events) = record {
  playbook_type = request_type;
  playbook = map (with_stdout last) events;
  playbook_sat = [];
}

abbrev pub sat_messages : String → String × List (SatEvent × Option TextRef) → ValidatedMessages
sat_messages request_type (last, events) = record {
  playbook_type = request_type;
  playbook = [];
  playbook_sat = map (with_console last) events;
}

unfoldable pub validate_content :
    Decoder → Limits → String → String → Result ContentError ValidatedMessages
unfolding content_loop runner_output sat_output validate_run_response validate_sat_run_response
validate_content d limits request_type payload =
    let truncate_data = leb limits.max_message_size (len payload) in
    let lines = split b'\n' payload in
    if request_type == playbook_sat_payload_header_value
    then (content_loop (validate_sat_run_response d)
          (sat_output limits truncate_data (length lines)) 0 "Truncated..." lines
        >>= λ r. require_events (sat_messages request_type r))
    else (content_loop (validate_run_response d) (runner_output limits truncate_data (length lines))
          0 "Truncated..." lines
        >>= λ r. require_events (runner_messages request_type r))
