-- ===== src/Kafka/EventLoop.antt =====
-- Which messages the event loop hands to its handler.
use playbook_dispatcher.Common.{
  ◌≡◌, ◌∙◌, Bool, ◌&&◌, String, some, List, [], ◌∷◌, ◌++◌, if◌then◌else◌, inl, inr, Bool-cases,
}
use mathlib.Core.List.{append-nil, append_assoc}
use playbook_dispatcher.Kafka.{Message, Poll, timed_out, read_error, message, event_loop}

-- The messages among the polls that pass both predicates, in their order.
abbrev pub accepted : (Message → Bool) → List Poll → List Message
accepted p [] = []
accepted p (timed_out ∷ polls) = accepted p polls
accepted p (read_error e ∷ polls) = accepted p polls
accepted p (message msg ∷ polls) = if p msg then msg ∷ accepted p polls else accepted p polls

abbrev pub reported_errors : List Poll → List String
reported_errors [] = []
reported_errors (timed_out ∷ polls) = reported_errors polls
reported_errors (read_error e ∷ polls) = e ∷ reported_errors polls
reported_errors (message msg ∷ polls) = reported_errors polls

module _ {State : Type 0} (p q : Message → Bool) (handler : Message → State → State) where
  abbrev pub handle_all : List Message → State → State
  handle_all [] state = state
  handle_all (msg ∷ msgs) state = handle_all msgs (handler msg state)

  -- The loop handles exactly the messages that pass both predicates, each once and in order, and
  -- reports every error but a time-out; neither an error nor a rejected message stops it.
  pub event_loop_lem :
      (polls : List Poll) (state : State) (errors : List String)
      → event_loop (some p) (some q) handler polls (state, errors) ≡ (
        handle_all (accepted (λ msg. p msg && q msg) polls) state,
        errors ++ reported_errors polls,
      )
  unfolding event_loop
  event_loop_lem [] state errors = rw append-nil
  event_loop_lem (timed_out ∷ polls) state errors = event_loop_lem polls state errors
  event_loop_lem (read_error e ∷ polls) state errors =
      event_loop_lem polls state (errors ++ e ∷ []) ∙ rw append_assoc
  event_loop_lem (message msg ∷ polls) state errors = elim (Bool-cases (p msg && q msg)) [
    | inl pass ↦ rw pass (event_loop_lem polls (handler msg state) errors)
    | inr drop ↦ rw drop (event_loop_lem polls state errors)
  ]
