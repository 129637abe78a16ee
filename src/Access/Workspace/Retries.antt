-- ===== src/Access/Workspace/Retries.antt =====
-- How often a lookup is tried, when it ends, and what it then returns.
use playbook_dispatcher.Common.{
  ℕ, zero, suc, ◌+◌, ◌≤◌, ◌<◌, ◌⊎◌, ◌≡◌, refl, Bool, true, String, Option, none, some, [], ◌∷◌,
  length, eqb, Result, ok, err, inl, inr, Bool-cases, arith,
}
use playbook_dispatcher.Access.Workspace.Client.{
  RbacClient, HttpReply, transport_error, replied, should_retry, Calls, before_attempt,
  before_sleep,
}
use playbook_dispatcher.Access.Workspace.Lookup.{
  authorize, Request, Trace, Outcome, prepend, is_success, token_of, retry_or_fail, after_reply,
  send, attempt_round, request_loop, do_request_with_retry, last_error, canceled_or, read_body,
}

abbrev pub last_reply : Trace → Option HttpReply
last_reply [] = none
last_reply (x ∷ []) = some x.1
last_reply (x ∷ y ∷ t) = last_reply (y ∷ t)

-- An error of the transport, a status of the server's errors, or too many requests.
abbrev pub IsRetried : HttpReply → Type 0
IsRetried (transport_error e) = Unit
IsRetried (replied code body) = ((500 ≤ code) × (code < 600)) ⊎ (code ≡ 429)

should_retry-IsRetried : (reply : HttpReply) → should_retry reply ≡ true → IsRetried reply
unfolding should_retry
should_retry-IsRetried (transport_error e) h = tt
should_retry-IsRetried (replied code body) h = elim (Bool-cases (eqb code 429)) [
  | inl e ↦ inr (ground arith)
  | inr e ↦ inl (ground arith, ground arith)
]

-- Every request but the last one was answered by something that is retried.
abbrev pub IsChain : Trace → Type 0
IsChain [] = Unit
IsChain (x ∷ []) = Unit
IsChain (x ∷ y ∷ t) = IsRetried x.1 × IsChain (y ∷ t)

-- What is returned is the body of the last reply, which is a success.
abbrev pub IsLast : Trace → Result (ℕ × String) (String × ℕ) → Type 0
IsLast t (err e) = Unit
IsLast t (ok (body, code)) =
    (last_reply t ≡ some (replied code (ok body))) × (200 ≤ code) × (code < 300)

-- At most `n` requests, in a chain.
abbrev pub IsLookup : ℕ → Outcome → Type 0
IsLookup n outcome = (length outcome.0 ≤ n) × IsChain outcome.0 × IsLast outcome.0 outcome.1

longer-IsLast :
    (x y : Request × HttpReply) (t : Trace) (r : Result (ℕ × String) (String × ℕ))
    → IsLast (y ∷ t) r
    → IsLast (x ∷ y ∷ t) r
longer-IsLast x y t (err e) h = tt
longer-IsLast x y t (ok (body, code)) h = h

nothing-IsLast :
    (x : Request × HttpReply) (r : Result (ℕ × String) (String × ℕ))
    → IsLast [] r
    → IsLast (x ∷ []) r
nothing-IsLast x (err e) h = tt
nothing-IsLast x (ok (body, code)) h = cc

prepend-IsLookup :
    (n : ℕ) (x : Request × HttpReply) (outcome : Outcome)
    → should_retry x.1 ≡ true
    → IsLookup n outcome
    → IsLookup (suc n) (prepend x outcome)
prepend-IsLookup n x ([], r) h (l, c, e) = (omega arith, tt, nothing-IsLast x r e)
prepend-IsLookup n x (y ∷ t, r) h (l, c, e) =
    (omega arith, (should_retry-IsRetried x.1 h, c), longer-IsLast x y t r e)

retry-IsLookup :
    (n : ℕ) (client : RbacClient) (attempt : ℕ) (request : Request) (reply : HttpReply)
    (canceled : Option String) (again : Outcome)
    → IsLookup n again
    → IsLookup
        (suc n)
        (prepend (request, reply) (retry_or_fail client attempt reply canceled again))
retry-IsLookup n client attempt request reply canceled again h =
    elim (Bool-cases (should_retry reply)) [
      | inr never ↦ rw never (omega arith, tt, tt)
      | inl retried ↦ elim (Bool-cases (eqb attempt client.max_retries)) [
        | inl end ↦ rw (retried, end) (omega arith, tt, tt)
        | inr more ↦ rw (retried, more) (canceled_cases canceled retried)
      ]
    ]
  where
    canceled_cases :
        (canceled : Option String)
        → should_retry reply ≡ true
        → IsLookup (suc n) (prepend (request, reply) (canceled_or canceled again))
    canceled_cases none retried = prepend-IsLookup n (request, reply) again retried h
    canceled_cases (some e) retried = (omega arith, tt, tt)

read_body-IsLookup :
    (n : ℕ) (request : Request) (code : ℕ) (body : Result String String)
    → is_success code ≡ true
    → IsLookup (suc n) (prepend (request, replied code body) ([], read_body code body))
read_body-IsLookup n request code (ok body) s =
    (omega arith, tt, (refl, ground arith, ground arith))
read_body-IsLookup n request code (err e) s = (omega arith, tt, tt)

reply-IsLookup :
    (n : ℕ) (client : RbacClient) (attempt : ℕ) (request : Request) (reply : HttpReply)
    (canceled : Option String) (again : Outcome)
    → IsLookup n again
    → IsLookup (suc n) (prepend (request, reply) (after_reply client attempt reply canceled again))
reply-IsLookup n client attempt request (transport_error e) canceled again h =
    retry-IsLookup n client attempt request (transport_error e) canceled again h
reply-IsLookup n client attempt request (replied code body) canceled again h =
    elim (Bool-cases (is_success code)) [
      | inl s ↦ rw s (read_body-IsLookup n request code body s)
      | inr f ↦ rw f (retry-IsLookup n client attempt request (replied code body) canceled again h)
    ]

send-IsLookup :
    (n : ℕ) (client : RbacClient) (calls : Calls) (attempt : ℕ) (request : Request)
    (token : Result String String) (again : Outcome)
    → IsLookup n again
    → IsLookup (suc n) (send client calls attempt request token again)
send-IsLookup n client calls attempt request (err e) again h = (omega arith, tt, tt)
send-IsLookup n client calls attempt request (ok token) again h =
    reply-IsLookup n client attempt (authorize token request) (calls.respond attempt)
      (calls.ctx_err (before_sleep attempt)) again h

round-IsLookup :
    (n : ℕ) (client : RbacClient) (calls : Calls) (flag : Bool) (attempt : ℕ) (request : Request)
    (canceled : Option String) (again : Outcome)
    → IsLookup n again
    → IsLookup (suc n) (attempt_round client calls flag attempt request canceled again)
round-IsLookup n client calls flag attempt request (some e) again h = (omega arith, tt, tt)
round-IsLookup n client calls flag attempt request none again h =
    send-IsLookup n client calls attempt request (token_of client calls flag attempt) again h

request_loop-IsLookup :
    (client : RbacClient) (calls : Calls) (flag : Bool) (request : Request) (rounds attempt : ℕ)
    (last : String)
    → IsLookup rounds (request_loop client calls flag request rounds attempt last)
unfolding request_loop
request_loop-IsLookup client calls flag request zero attempt last = (omega arith, tt, tt)
request_loop-IsLookup client calls flag request (suc rounds) attempt last =
    round-IsLookup rounds client calls flag attempt request (calls.ctx_err (before_attempt attempt))
      _
      (request_loop-IsLookup client calls flag request rounds (attempt + 1)
        (last_error (calls.respond attempt)))

-- A lookup sends at most one request more than the retries. Every request but the last one was
-- answered by an error of the transport, a 5xx or a 429. What is returned is the body of the last
-- reply, with its status 2xx.
pub do_request_with_retry-IsLookup :
    (client : RbacClient) (calls : Calls) (request : Request) (flag : Bool)
    → IsLookup (suc client.max_retries) (do_request_with_retry client calls request flag)
unfolding do_request_with_retry
do_request_with_retry-IsLookup client calls request flag =
    request_loop-IsLookup client calls flag request (suc client.max_retries) 0 ""
