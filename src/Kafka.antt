-- ===== src/Kafka.antt =====
-- internal/common/kafka/kafka.go, and the header names of internal/common/constants/constants.go.
-- A header is a key and a value; a message is its headers and its value. A poll of the consumer is
-- what `ReadMessage` returns; the loop ends with the context.
pub mod Headers
pub mod EventLoop
use playbook_dispatcher.Common.{
  Bool, true, false, ◌&&◌, String, Option, none, some, List, [], ◌∷◌, ◌++◌, if◌then◌else◌, ◌==◌,
  contains,
}

abbrev pub header_request_id : String
header_request_id = "x-rh-insights-request-id"

abbrev pub header_correlation_id : String
header_correlation_id = "x-rh-insights-playbook-dispatcher-correlation-id"

abbrev pub header_request_type : String
header_request_type = "service"

pub record Message : Type 0 where
  pub headers : List (String × String)
  pub value : String

-- `GetHeader`; `none` is its error.
unfoldable pub get_header : String → List (String × String) → Option String
get_header key [] = none
get_header key ((k, v) ∷ headers) = if k == key then some v else get_header key headers

-- The loop of `Headers`, which fills the first half of the result.
unfoldable pub header_pairs : List String → List (String × String)
header_pairs [] = []
header_pairs (k ∷ []) = []
header_pairs (k ∷ v ∷ more) = (k, v) ∷ header_pairs more

-- The other half of `make([]kafka.Header, len(keysAndValues))` stays zero.
unfoldable pub zero_headers : List String → List (String × String)
zero_headers [] = []
zero_headers (k ∷ []) = []
zero_headers (k ∷ v ∷ more) = ("", "") ∷ zero_headers more

abbrev is_even_length : List String → Bool
is_even_length [] = true
is_even_length (k ∷ []) = false
is_even_length (k ∷ v ∷ more) = is_even_length more

-- `Headers`; `none` is its panic on an odd number of parameters.
unfoldable pub headers : List String → Option (List (String × String))
unfolding header_pairs zero_headers
headers keys_and_values =
    if is_even_length keys_and_values
    then some (header_pairs keys_and_values ++ zero_headers keys_and_values)
    else none

-- `FilterByHeaderPredicate`
unfoldable pub filter_by_header : String → List String → Message → Bool
unfolding get_header
filter_by_header header filter_vals msg = elim (get_header header msg.headers) [
  | none ↦ false
  | some val ↦ contains val filter_vals
]

-- What a poll of the consumer returns, unless the context is done by then.
pub data Poll : Type 0 where
  timed_out : Poll
  read_error : String → Poll
  message : Message → Poll

module _ {State : Type 0} (message_predicate validation_predicate : Option (Message → Bool))
    (handler : Message → State → State) where
  -- `predicate != nil && !predicate(msg)`, negated
  abbrev passes : Option (Message → Bool) → Message → Bool
  passes none msg = true
  passes (some p) msg = p msg

  -- The loop of `NewConsumerEventLoop`: the state of the handler, and the errors it sends.
  unfoldable pub event_loop : List Poll → State × List String → State × List String
  event_loop [] s = s
  event_loop (timed_out ∷ polls) s = event_loop polls s
  event_loop (read_error e ∷ polls) (state, errors) = event_loop polls (state, errors ++ e ∷ [])
  event_loop (message msg ∷ polls) (state, errors) = event_loop polls (
    if passes message_predicate msg && passes validation_predicate msg
        then handler msg state
        else state,
    errors,
  )
