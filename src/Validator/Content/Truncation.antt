-- ===== src/Validator/Content/Truncation.antt =====
-- What `validateContent` makes of a payload, line by line, against a description that has no shared
-- variable: the number of a line decides what its event keeps of its output.
use Prim.Native.String.{len, slice}
use playbook_dispatcher.Common.{
  ℕ, suc, ◌+◌, ◌≡◌, refl, inl, inr, Bool, true, false, ◌&&◌, String, Option, none, some, List, [],
  ◌∷◌, map, if◌then◌else◌, ltb, leb, Bool-cases, ◌==◌, eq_refl, concat, split, length, Result, ok,
  err, ◌>>=◌, arith, nil_dereference,
}
use playbook_dispatcher.Model.{RunnerEvent, SatEvent}
use playbook_dispatcher.Validator.Content.{
  Limits, Decoder, ContentError, is_blank, validate_run_response, validate_sat_run_response,
  TextRef, resolve, shorten, owned, runner_output, sat_output, sat_late_output, content_loop,
  ValidatedMessages, with_stdout, with_console, require_events, validate_content,
  playbook_sat_payload_header_value, Round, panic,
}

-- The events of the lines that are not blank, each made from the number of its line and its text,
-- up to the first error.
abbrev pub each_line :
    {E : Type 0}
    → (ℕ → String → Result ContentError E)
    → ℕ
    → List String
    → Result ContentError (List E)
each_line f i [] = ok []
each_line f i (line ∷ lines) =
    let skip = each_line f (suc i) lines in
    let take = (f i line >>= λ e. each_line f (suc i) lines >>= λ es. ok (e ∷ es)) in
    if is_blank line then skip else take

-- What a line that is not emptied keeps of its output.
abbrev pub kept : Limits → Bool → Option String → Option String
kept limits truncate_data none = none
kept limits truncate_data (some text) =
    if truncate_data && ltb limits.max_stdout_size (len text)
    then some (concat (slice text 0 limits.max_stdout_size) "...")
    else some text

-- The line `i` of `n` of a large payload, past the limit, and not one of the last two.
abbrev pub is_emptied : Limits → Bool → ℕ → ℕ → Bool
is_emptied limits truncate_data n i =
    truncate_data && (ltb limits.truncate_after_number_of_lines i && ltb (i + 2) n)

abbrev pub runner_line : Decoder → Limits → Bool → ℕ → ℕ → String → Result ContentError RunnerEvent
runner_line d limits truncate_data n i line = validate_run_response d line >>= λ event.
    ok (record event {
      stdout =
          if is_emptied limits truncate_data n i
          then some ""
          else kept limits truncate_data event.stdout;
    })

abbrev pub emptied_console : Option String → Result ContentError (Option String)
emptied_console none = err (panic nil_dereference)
emptied_console (some text) = ok (some "")

abbrev pub sat_line : Decoder → Limits → Bool → ℕ → String → Result ContentError SatEvent
sat_line d limits truncate_data i line = validate_sat_run_response d line >>= λ event.
    (if truncate_data && ltb limits.truncate_after_number_of_lines i
      then emptied_console event.console
      else ok (kept limits truncate_data event.console))
    >>= λ console. ok (record event { console = console })

-- A round agrees with what is expected of it, whatever text the variable ends with, as long as an
-- empty one stays empty.
abbrev Agrees :
    {E : Type 0}
    → (String → E × Option TextRef → E)
    → String
    → E
    → Result ContentError Round
    → Result ContentError E
    → Type 0
Agrees attach t event (err x) r = r ≡ err x
Agrees attach t event (ok (t', text)) r =
    (t ≡ "" → t' ≡ "")
    × ((last : String) → (t' ≡ "" → last ≡ "") → r ≡ ok (attach last (event, text)))

abbrev LoopAgrees :
    {E : Type 0}
    → (String → E × Option TextRef → E)
    → String
    → Result ContentError (String × List (E × Option TextRef))
    → Result ContentError (List E)
    → Type 0
LoopAgrees attach t (err x) r = r ≡ err x
LoopAgrees attach t (ok (last, events)) r =
    (t ≡ "" → last ≡ "") × (r ≡ ok (map (attach last) events))

module _ {E : Type 0} (attach : String → E × Option TextRef → E)
    (validate : String → Result ContentError E)
    (output : ℕ → String → E → Result ContentError Round) (finish : ℕ → E → Result ContentError E)
    (agrees : (i : ℕ) (t : String) (event : E)
      → Agrees attach t event (output i t event) (finish i event)) where
  abbrev line_of : ℕ → String → Result ContentError E
  line_of i line = validate line >>= finish i

  -- The rest of the loop after a line whose event is known.
  after_event :
      (t t' : String) (event : E) (text : Option TextRef) (r : Result ContentError E)
      (m : Result ContentError (String × List (E × Option TextRef)))
      (rest : Result ContentError (List E))
      → Agrees attach t event (ok (t', text)) r
      → LoopAgrees attach t' m rest
      → LoopAgrees attach t
          (m >>= λ (last, events). ok (last, (event, text) ∷ events))
          (r >>= λ e. rest >>= λ es. ok (e ∷ es))
  after_event t t' event text r (err x) rest a b = simp (a.1 "" (λ _. refl), b)
  after_event t t' event text r (ok (last, events)) rest a b =
      ((λ e. b.0 (a.0 e)), simp (a.1 last b.0, b.1))

  after_output :
      (i : ℕ) (t : String) (event : E) (m : Result ContentError Round) (lines : List String)
      (rest : Result ContentError (List E))
      → Agrees attach t event m (finish i event)
      → ((t' : String) → LoopAgrees attach t' (content_loop validate output (suc i) t' lines) rest)
      → LoopAgrees attach t
          (m >>= λ (t', text). content_loop validate output (suc i) t' lines >>= λ (last, events).
            ok (last, (event, text) ∷ events))
          (finish i event >>= λ e. rest >>= λ es. ok (e ∷ es))
  after_output i t event (err x) lines rest a b = rw (a) refl
  after_output i t event (ok (t', text)) lines rest a b =
      after_event t t' event text (finish i event) (content_loop validate output (suc i) t' lines)
        rest a (b t')

  after_line :
      (i : ℕ) (t : String) (m : Result ContentError E) (lines : List String)
      (rest : Result ContentError (List E))
      → ((t' : String) → LoopAgrees attach t' (content_loop validate output (suc i) t' lines) rest)
      → LoopAgrees attach t
          (m >>= λ event. output i t event >>= λ (t', text).
            content_loop validate output (suc i) t' lines >>= λ (last, events).
            ok (last, (event, text) ∷ events))
          (m >>= finish i >>= λ e. rest >>= λ es. ok (e ∷ es))
  after_line i t (err x) lines rest b = refl
  after_line i t (ok event) lines rest b =
      after_output i t event (output i t event) lines rest (agrees i t event) b

  content_loop-LoopAgrees :
      (i : ℕ) (lines : List String) (t : String)
      → LoopAgrees attach t (content_loop validate output i t lines) (each_line line_of i lines)
  unfolding content_loop
  content_loop-LoopAgrees i [] t = ((λ e. e), refl)
  content_loop-LoopAgrees i (line ∷ lines) t = elim (Bool-cases (is_blank line)) [
    | inl e ↦ rw (e) (content_loop-LoopAgrees (suc i) lines t)
    | inr e ↦ rw (e) (
        after_line i t (validate line) lines (each_line line_of (suc i) lines)
          (content_loop-LoopAgrees (suc i) lines))
  ]

resolve-shorten :
    (limits : Limits) (text : Option String) (last : String)
    → resolve last (shorten limits.max_stdout_size text) ≡ kept limits true text
unfolding shorten
resolve-shorten limits none last = refl
resolve-shorten limits (some text) last = ground arith

resolve-owned :
    (limits : Limits) (text : Option String) (last : String)
    → resolve last (owned text) ≡ kept limits false text
resolve-owned limits none last = refl
resolve-owned limits (some text) last = refl

runner_output-Agrees :
    (limits : Limits) (big : Bool) (n i : ℕ) (t : String) (event : RunnerEvent)
    → Agrees with_stdout t event (runner_output limits big n i t event) (
        ok (record event {
          stdout = if is_emptied limits big n i then some "" else kept limits big event.stdout;
        }))
unfolding runner_output
runner_output-Agrees limits false n i t event =
    ((λ e. e), λ last h. rw (resolve-owned limits event.stdout last) refl)
runner_output-Agrees limits true n i t event =
    elim (Bool-cases (ltb limits.truncate_after_number_of_lines i && ltb (i + 2) n)) [
      | inl e ↦ rw (e) ((λ e. refl), λ last h. rw (h refl) refl)
      | inr e ↦ rw (e) ((λ e. e), λ last h. rw (resolve-shorten limits event.stdout last) refl)
    ]

late-Agrees :
    (t : String) (event : SatEvent) (text : Option String)
    → Agrees with_console t event
        (sat_late_output text)
        (emptied_console text >>= λ console. ok (record event { console = console }))
late-Agrees t event none = refl
late-Agrees t event (some text) = ((λ e. refl), λ last h. rw (h refl) refl)

sat_output-Agrees :
    (limits : Limits) (big : Bool) (n i : ℕ) (t : String) (event : SatEvent)
    → Agrees with_console t event (sat_output limits big n i t event) (
        (if big && ltb limits.truncate_after_number_of_lines i
          then emptied_console event.console
          else ok (kept limits big event.console))
        >>= λ console. ok (record event { console = console }))
unfolding sat_output
sat_output-Agrees limits false n i t event =
    ((λ e. e), λ last h. rw (resolve-owned limits event.console last) refl)
sat_output-Agrees limits true n i t event =
    elim (Bool-cases (ltb limits.truncate_after_number_of_lines i)) [
      | inl e ↦ rw (e) (late-Agrees t event event.console)
      | inr e ↦ rw (e) ((λ e. e), λ last h. rw (resolve-shorten limits event.console last) refl)
    ]

-- From the loop to its events.
from_agreement :
    {E : Type 0} (attach : String → E × Option TextRef → E) (t : String)
    (m : Result ContentError (String × List (E × Option TextRef)))
    (r : Result ContentError (List E)) (f : List E → Result ContentError ValidatedMessages)
    → LoopAgrees attach t m r
    → (m >>= λ (last, events). f (map (attach last) events)) ≡ (r >>= f)
from_agreement attach t (err x) r f a = rw (a) refl
from_agreement attach t (ok (last, events)) r f a = rw (a.1) refl

abbrev pub is_big : Limits → String → Bool
is_big limits payload = leb limits.max_message_size (len payload)

abbrev pub lines_of : String → List String
lines_of payload = split b'\n' payload

abbrev pub runner_result : String → List RunnerEvent → Result ContentError ValidatedMessages
runner_result request_type events =
    require_events (record { playbook_type = request_type; playbook = events; playbook_sat = [] })

abbrev pub sat_result : String → List SatEvent → Result ContentError ValidatedMessages
sat_result request_type events =
    require_events (record { playbook_type = request_type; playbook = []; playbook_sat = events })

-- For every request type but that of Satellite, `validate_content` returns one event for each line
-- that is not blank, in their order, or the first error of a line, or "No events found". An output
-- stays what it is in a payload below the limit. In a larger one it is cut to `max_stdout_size`
-- bytes and "..." is added; and the output of a line past `truncate_after_number_of_lines` that is
-- not among the last two becomes the empty text, never "Truncated...".
pub validate_content_runner :
    (d : Decoder) (limits : Limits) (request_type payload : String)
    → (request_type == playbook_sat_payload_header_value) ≡ false
    → validate_content d limits request_type payload ≡ (
        each_line
          (runner_line d limits (is_big limits payload) (length (lines_of payload)))
          0
          (lines_of payload)
        >>= runner_result request_type)
unfolding validate_content
validate_content_runner d limits request_type payload h = rw (h) (
    from_agreement with_stdout "Truncated..." _ _ (runner_result request_type) (
      content_loop-LoopAgrees with_stdout (validate_run_response d)
        (runner_output limits (is_big limits payload) (length (lines_of payload)))
        (λ i event. ok (record event {
          stdout =
              if is_emptied limits (is_big limits payload) (length (lines_of payload)) i
              then some ""
              else kept limits (is_big limits payload) event.stdout;
        }))
        (runner_output-Agrees limits (is_big limits payload) (length (lines_of payload))) 0
        (lines_of payload) "Truncated..."))

-- For the request type of Satellite, `validate_content` returns one event for each line that is not
-- blank, in their order, or the first error of a line, or "No events found". An output stays what it
-- is in a payload below the limit. In a larger one it is cut to `max_stdout_size` bytes and "..." is
-- added; and a line past `truncate_after_number_of_lines` gets the empty text as its output, or makes
-- the validator panic where it has no output.
pub validate_content_sat :
    (d : Decoder) (limits : Limits) (payload : String)
    → validate_content d limits playbook_sat_payload_header_value payload ≡ (
        each_line (sat_line d limits (is_big limits payload)) 0 (lines_of payload)
        >>= sat_result playbook_sat_payload_header_value)
unfolding validate_content
validate_content_sat d limits payload = rw (eq_refl playbook_sat_payload_header_value) (
    from_agreement with_console "Truncated..." _ _ (sat_result playbook_sat_payload_header_value) (
      content_loop-LoopAgrees with_console (validate_sat_run_response d)
        (sat_output limits (is_big limits payload) (length (lines_of payload)))
        (λ i event.
          (if is_big limits payload && ltb limits.truncate_after_number_of_lines i
            then emptied_console event.console
            else ok (kept limits (is_big limits payload) event.console))
          >>= λ console. ok (record event { console = console }))
        (sat_output-Agrees limits (is_big limits payload) (length (lines_of payload))) 0
        (lines_of payload) "Truncated..."))
