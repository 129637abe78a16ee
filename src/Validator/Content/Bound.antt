-- ===== src/Validator/Content/Bound.antt =====
-- How much of an output `validateContent` lets through: the bytes of the cut texts.
use Prim.Native.Nat.{Ordering, compare as compare_ℕ}
use Prim.Native.Char.{Char, len_utf8}
use Prim.Native.String.{len, slice, fits}
use Prim.Native.String.slice
use Prim.Native.String.len
use text.Mathlib.TextPositions.{len-append}
use playbook_dispatcher.Common.{
  ℕ, zero, suc, ◌+◌, ◌-◌, ◌≤◌, ◌≡◌, refl, inl, inr, Bool, true, false, String, Option, none, some,
  List, [], ◌∷◌, if◌then◌else◌, ltb, leb, Bool-cases, ◌==◌, length, Result, ok, err, ◌>>=◌, arith,
  All,
}
use playbook_dispatcher.Model.{RunnerEvent}
use playbook_dispatcher.Validator.Content.{
  Limits, Decoder, ContentError, is_blank, validate_run_response, validate_content,
  playbook_sat_payload_header_value,
}
use playbook_dispatcher.Validator.Content.Truncation.{
  kept, is_emptied, runner_line, each_line, is_big, lines_of, runner_result,
  validate_content_runner,
}

fits-if :
    (o : Ordering) (c : Char) (s : String)
    → fits o c s ≡ (if elim o [ Ordering.gt ↦ false | _ ↦ true ] then String.◌∷◌ c s else "")
fits-if Ordering.lt c s = refl
fits-if Ordering.eq c s = refl
fits-if Ordering.gt c s = refl

len-fits :
    (c : Char) (k : ℕ) (s : String)
    → len s ≤ k - len_utf8 c
    → len (fits (compare_ℕ (len_utf8 c) k) c s) ≤ k
len-fits c k s h =
    rw (fits-if (compare_ℕ (len_utf8 c) k) c s) (elim (Bool-cases (leb (len_utf8 c) k)) [
      | inl e ↦ rw (e) (ground (arith, len.cons c s))
      | inr e ↦ rw (e) (omega arith)
    ])

len-slice : (s : String) (k : ℕ) → len (slice s 0 k) ≤ k
len-slice String.[] k = rw (slice.nil zero k) (omega arith)
len-slice (String.◌∷◌ c s) k =
    rw (slice.cons-zero c s k)
      (len-fits c k (slice s zero (k - len_utf8 c)) (len-slice s (k - len_utf8 c)))

-- A text, where there is one, has at most `n` bytes.
abbrev pub IsWithin : ℕ → Option String → Type 0
IsWithin n none = Unit
IsWithin n (some text) = len text ≤ n

kept-IsWithin :
    (limits : Limits) (output : Option String)
    → IsWithin (limits.max_stdout_size + 3) (kept limits true output)
kept-IsWithin limits none = tt
kept-IsWithin limits (some text) = elim (Bool-cases (ltb limits.max_stdout_size (len text))) [
  | inl e ↦ rw (e) (
      omega (
        arith,
        len-append (slice text 0 limits.max_stdout_size) "...",
        len-slice text limits.max_stdout_size,
      ))
  | inr e ↦ rw (e) (ground arith)
]

-- `P` holds of a result, if there is one.
abbrev pub Satisfies : {A : Type 0} → (A → Type 0) → Result ContentError A → Type 0
Satisfies P (ok a) = P a
Satisfies P (err e) = Unit

abbrev pub HasShortStdout : Limits → RunnerEvent → Type 0
HasShortStdout limits event = IsWithin (limits.max_stdout_size + 3) event.stdout

stdout_of_line-IsWithin :
    (limits : Limits) (late : Bool) (output : Option String)
    → IsWithin (limits.max_stdout_size + 3) (if late then some "" else kept limits true output)
stdout_of_line-IsWithin limits true output = omega arith
stdout_of_line-IsWithin limits false output = kept-IsWithin limits output

with_short_stdout :
    (limits : Limits) (late : Bool) (m : Result ContentError RunnerEvent)
    → Satisfies (HasShortStdout limits) (
        m >>= λ event.
        ok (record event { stdout = if late then some "" else kept limits true event.stdout }))
with_short_stdout limits late (err e) = tt
with_short_stdout limits late (ok event) = stdout_of_line-IsWithin limits late event.stdout

module _ {E : Type 0} (P : E → Type 0) where
  Satisfies-cons :
      (m : Result ContentError E) (rest : Result ContentError (List E))
      → Satisfies P m
      → Satisfies (All P) rest
      → Satisfies (All P) (m >>= λ e. rest >>= λ es. ok (e ∷ es))
  Satisfies-cons (err e) rest h k = tt
  Satisfies-cons (ok e) (err x) h k = tt
  Satisfies-cons (ok e) (ok es) h k = (h, k)

  each_line-All :
      (f : ℕ → String → Result ContentError E)
      → ((i : ℕ) (line : String) → Satisfies P (f i line))
      → (i : ℕ) (lines : List String) → Satisfies (All P) (each_line f i lines)
  each_line-All f k i [] = tt
  each_line-All f k i (line ∷ lines) = elim (Bool-cases (is_blank line)) [
    | inl e ↦ rw (e) (each_line-All f k (suc i) lines)
    | inr e ↦ rw (e) (
        Satisfies-cons (f i line) (each_line f (suc i) lines) (k i line)
          (each_line-All f k (suc i) lines))
  ]

Satisfies-messages :
    (limits : Limits) (request_type : String) (m : Result ContentError (List RunnerEvent))
    → Satisfies (All (HasShortStdout limits)) m
    → Satisfies
        (λ messages. All (HasShortStdout limits) messages.playbook)
        (m >>= runner_result request_type)
Satisfies-messages limits request_type (err e) h = tt
Satisfies-messages limits request_type (ok []) h = tt
Satisfies-messages limits request_type (ok (e ∷ es)) h = h

-- Where a payload of a runner is not below `max_message_size` bytes and `validate_content` accepts
-- it, no output that is left has more than `max_stdout_size` and three bytes.
pub validate_content_bound :
    (d : Decoder) (limits : Limits) (request_type payload : String)
    → (request_type == playbook_sat_payload_header_value) ≡ false
    → is_big limits payload ≡ true
    → Satisfies
        (λ messages. All (HasShortStdout limits) messages.playbook)
        (validate_content d limits request_type payload)
validate_content_bound d limits request_type payload h big =
    rw (validate_content_runner d limits request_type payload h, big)
      (Satisfies-messages limits request_type _ (
        each_line-All (HasShortStdout limits)
          (runner_line d limits true (length (lines_of payload)))
          (λ i line.
            with_short_stdout limits (is_emptied limits true (length (lines_of payload)) i)
              (validate_run_response d line))
          0 (lines_of payload)))
