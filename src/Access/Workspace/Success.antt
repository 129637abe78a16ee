-- ===== src/Access/Workspace/Success.antt =====
-- A lookup that some attempt answers is not lost.
use playbook_dispatcher.Common.{
  ℕ, zero, suc, ◌+◌, ◌≤◌, ◌<◌, ◌≡◌, refl, Bool, true, false, String, none, eqb, ok, arith,
}
use playbook_dispatcher.Access.Workspace.Client.{
  RbacClient, HttpReply, transport_error, replied, should_retry, Calls, Moment,
}
use playbook_dispatcher.Access.Workspace.Lookup.{
  Request, Outcome, is_success, after_reply, token_of, request_loop, do_request_with_retry,
}

-- The context is not canceled, and each attempt has its token.
abbrev pub IsUndisturbed : RbacClient → Calls → Bool → Type 0
IsUndisturbed client calls flag =
    ((m : Moment) → calls.ctx_err m ≡ none)
    × ((attempt : ℕ) → (token : String) × (token_of client calls flag attempt ≡ ok token))

-- The attempts from `i` on are answered by `n` replies that are retried and then by a success.
abbrev pub IsAnsweredAfter : Calls → ℕ → ℕ → String → ℕ → Type 0
IsAnsweredAfter calls zero i body code =
    (calls.respond i ≡ replied code (ok body)) × (is_success code ≡ true)
IsAnsweredAfter calls (suc n) i body code =
    (should_retry (calls.respond i) ≡ true) × IsAnsweredAfter calls n (i + 1) body code

-- A status that is retried is no success.
after_reply-retried :
    (client : RbacClient) (attempt : ℕ) (reply : HttpReply) (again : Outcome)
    → should_retry reply ≡ true
    → eqb attempt client.max_retries ≡ false
    → after_reply client attempt reply none again ≡ again
unfolding should_retry
after_reply-retried client attempt (transport_error e) again h m = rw m refl
after_reply-retried client attempt (replied code body) again h m =
    let failed : is_success code ≡ false = ground arith in rw (failed, h, m) refl

request_loop-IsAnsweredAfter :
    (client : RbacClient) (calls : Calls) (flag : Bool) (request : Request) (n rounds attempt : ℕ)
    (last body : String) (code : ℕ)
    → IsUndisturbed client calls flag
    → IsAnsweredAfter calls n attempt body code
    → n < rounds
    → attempt + rounds ≡ suc client.max_retries
    → (request_loop client calls flag request rounds attempt last).1 ≡ ok (body, code)
unfolding request_loop
request_loop-IsAnsweredAfter client calls flag request n zero attempt last body code u a l e =
    absurd (omega arith)
request_loop-IsAnsweredAfter client calls flag request zero (suc rounds) attempt last body code
      (live, tokens) (r, s) l e =
    let (token, t) = tokens attempt in rw (live _, t, r, s) refl
request_loop-IsAnsweredAfter client calls flag request (suc n) (suc rounds) attempt last body code
      (live, tokens) (r, a) l e =
    let (token, t) = tokens attempt in
    let more : eqb attempt client.max_retries ≡ false = ground arith in
    rw (live _, t, live _, after_reply-retried client attempt (calls.respond attempt) _ r more)
      (request_loop-IsAnsweredAfter client calls flag request n rounds (attempt + 1) _ body code
        (live, tokens) a (omega arith) (omega arith))

-- If one of the attempts is answered by a success, and those before it by errors of the transport, by
-- 5xx or by 429, then its body is returned, as long as the context lives and there are tokens.
pub do_request_with_retry-returns :
    (client : RbacClient) (calls : Calls) (flag : Bool) (request : Request) (n : ℕ) (body : String)
    (code : ℕ)
    → IsUndisturbed client calls flag
    → IsAnsweredAfter calls n 0 body code
    → n ≤ client.max_retries
    → (do_request_with_retry client calls request flag).1 ≡ ok (body, code)
unfolding do_request_with_retry
do_request_with_retry-returns client calls flag request n body code u a l =
    request_loop-IsAnsweredAfter client calls flag request n (suc client.max_retries) 0 "" body code
      u a (omega arith) (omega arith)
