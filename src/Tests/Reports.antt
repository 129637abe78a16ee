-- ===== src/Tests/Reports.antt =====
-- The inferences from events, the parsers of output, and the messages of Kafka.
use mathlib.Core.List.{Perm}
use playbook_dispatcher.Common.{
  ℕ, suc, ◌≡◌, refl, Bool, true, String, some, List, [], ◌∷◌, if◌then◌else◌, ok, any, ◌==◌,
}
use playbook_dispatcher.Model.{running, success, failure, is_running, is_failure, is_canceled}
use playbook_dispatcher.Kafka.{Message, timed_out, read_error, message, Poll}
use playbook_dispatcher.Satellite.{sort_sat_events, get_sat_hosts}
use playbook_dispatcher.Satellite.Sorting.{InSequence, sort_sat_events_lem}
use playbook_dispatcher.ResponseConsumer.Status.{infer_status, infer_sat_playbook_status}
use playbook_dispatcher.ResponseConsumer.Status.Runner.{ends, fails, infer_status_lem}
use playbook_dispatcher.ResponseConsumer.Status.Sat.{verdict}
use playbook_dispatcher.ResponseConsumer.Status.Hosts.{reported, infer_sat_playbook_status_open}
use playbook_dispatcher.Tests.Data.{playbook_events, open_events, message_of}

infer_status_lem_example : infer_status playbook_events (some "b") ≡ (
    if any (ends (some "b")) playbook_events
    then (if any (fails (some "b")) playbook_events then failure else success)
    else running)
infer_status_lem_example = infer_status_lem playbook_events (some "b")

infer_sat_playbook_status_open_example :
    infer_sat_playbook_status open_events
    ≡ ok (
        verdict
          (any (λ h. is_running (reported h running open_events)) (get_sat_hosts open_events))
          (any (λ h. is_failure (reported h running open_events)) (get_sat_hosts open_events))
          (any (λ h. is_canceled (reported h running open_events)) (get_sat_hosts open_events)))
infer_sat_playbook_status_open_example = infer_sat_playbook_status_open open_events refl

sort_sat_events_lem_example :
    Perm (sort_sat_events open_events) open_events × InSequence (sort_sat_events open_events)
sort_sat_events_lem_example = sort_sat_events_lem open_events

abbrev polls : List Poll
polls =
    timed_out
    ∷ message (message_of "playbook" "x")
    ∷ read_error "broken"
    ∷ message (message_of "playbook" "y")
    ∷ []

abbrev is_x : Message → Bool
is_x msg = msg.value == "x"

abbrev always : Message → Bool
always msg = true

abbrev count : Message → ℕ → ℕ
count msg n = suc n

abbrev two_pairs : List String
two_pairs = "service" ∷ "playbook" ∷ "id" ∷ "1" ∷ []

abbrev four_headers : List (String × String)
four_headers = ("service", "playbook") ∷ ("id", "1") ∷ ("", "") ∷ ("", "") ∷ []
