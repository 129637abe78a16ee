-- ===== src/Access/Workspace/Lookup.antt =====
-- The lookup itself: `doRequestWithRetry` and `GetDefaultWorkspaceID` of
-- internal/common/kessel/rbac.go. A trace is the list of the requests that were sent, each with its
-- reply.
use playbook_dispatcher.Common.{
  ℕ, zero, suc, ◌+◌, Bool, ◌&&◌, ◌||◌, not, String, Option, none, some, List, [], ◌∷◌,
  if◌then◌else◌, ltb, leb, eqb, ◌==◌, concat, Result, ok, err,
}
use playbook_dispatcher.Access.Identity.{Identity}
use playbook_dispatcher.Access.Modes.{Unleash, is_token_timeout_enabled}
use playbook_dispatcher.Access.Workspace.Client.{
  RbacClient, HttpReply, transport_error, replied, should_retry, Calls, before_attempt,
  before_sleep,
}
use playbook_dispatcher.Access.Workspace.Tokens.{acquire_token_with_retry}

pub record Request : Type 0 where
  pub url : String
  pub org_id : String
  pub authorization : Option String

abbrev pub Trace : Type 0
Trace = List (Request × HttpReply)

-- The body and the status code, or an error with the status code.
abbrev pub Outcome : Type 0
Outcome = Trace × Result (ℕ × String) (String × ℕ)

abbrev pub prepend : Request × HttpReply → Outcome → Outcome
prepend exchange (trace, result) = (exchange ∷ trace, result)

-- 2xx
abbrev pub is_success : ℕ → Bool
is_success code = leb 200 code && ltb code 300

-- A token of an attempt; the empty text where there is no token client.
abbrev token_error : Result String String → Result String String
token_error (ok token) = ok token
token_error (err e) = err (concat "OIDC token acquisition failed: " e)

abbrev pub token_of : RbacClient → Calls → Bool → ℕ → Result String String
token_of client calls token_timeout_enabled attempt =
    if not client.has_token_client
    then ok ""
    else if token_timeout_enabled
    then (acquire_token_with_retry client calls attempt).1
    else token_error (calls.get_token attempt)

abbrev pub authorize : String → Request → Request
authorize token request =
    if token == ""
    then request
    else record request { authorization = some (concat "Bearer " token) }

abbrev pub read_body : ℕ → Result String String → Result (ℕ × String) (String × ℕ)
read_body code (ok body) = ok (body, code)
read_body code (err e) = err (code, concat "failed to read response body: " e)

abbrev pub status_code : HttpReply → ℕ
status_code (transport_error e) = 0
status_code (replied code body) = code

abbrev pub last_error : HttpReply → String
last_error (transport_error e) = concat "HTTP request failed: " e
last_error (replied code body) = "HTTP status"

-- After a reply without success.
abbrev pub canceled_or : Option String → Outcome → Outcome
canceled_or (some e) again = ([], err (0, concat "request canceled during retry: " e))
canceled_or none again = again

abbrev pub retry_or_fail : RbacClient → ℕ → HttpReply → Option String → Outcome → Outcome
retry_or_fail client attempt reply canceled again =
    if not (should_retry reply) || eqb attempt client.max_retries
    then ([], err (status_code reply, last_error reply))
    else canceled_or canceled again

abbrev pub after_reply : RbacClient → ℕ → HttpReply → Option String → Outcome → Outcome
after_reply client attempt (transport_error e) canceled again =
    retry_or_fail client attempt (transport_error e) canceled again
after_reply client attempt (replied code body) canceled again =
    if is_success code
    then ([], read_body code body)
    else retry_or_fail client attempt (replied code body) canceled again

abbrev pub send : RbacClient → Calls → ℕ → Request → Result String String → Outcome → Outcome
send client calls attempt request (err e) again = ([], err (0, e))
send client calls attempt request (ok token) again =
    prepend (authorize token request, calls.respond attempt)
      (after_reply client attempt (calls.respond attempt) (calls.ctx_err (before_sleep attempt))
        again)

abbrev pub attempt_round :
    RbacClient → Calls → Bool → ℕ → Request → Option String → Outcome → Outcome
attempt_round client calls token_timeout_enabled attempt request (some e) again =
    ([], err (0, concat "request canceled: " e))
attempt_round client calls token_timeout_enabled attempt request none again =
    send client calls attempt request (token_of client calls token_timeout_enabled attempt) again

-- The loop of `doRequestWithRetry`: the rounds left, and the attempt.
unfoldable pub request_loop : RbacClient → Calls → Bool → Request → ℕ → ℕ → String → Outcome
request_loop client calls token_timeout_enabled request zero attempt last = ([], err (0, last))
request_loop client calls token_timeout_enabled request (suc rounds) attempt last =
    let again =
      request_loop client calls token_timeout_enabled request rounds (attempt + 1)
        (last_error (calls.respond attempt)) in
    attempt_round client calls token_timeout_enabled attempt request
      (calls.ctx_err (before_attempt attempt)) again

-- `doRequestWithRetry`
unfoldable pub do_request_with_retry : RbacClient → Calls → Request → Bool → Outcome
unfolding request_loop
do_request_with_retry client calls request token_timeout_enabled =
    request_loop client calls token_timeout_enabled request (suc client.max_retries) 0 ""

-- The end of `GetDefaultWorkspaceID`: exactly one workspace.
abbrev pub only_workspace : Option (List String) → Result String String
only_workspace none = err "failed to parse response"
only_workspace (some (workspace_id ∷ [])) = ok workspace_id
only_workspace (some ids) = err "unexpected number of default workspaces"

abbrev pub workspace_of : Calls → Result (ℕ × String) (String × ℕ) → Result String String
workspace_of calls (err e) = err e.1
workspace_of calls (ok reply) = only_workspace (calls.decode reply.0)

-- `GetDefaultWorkspaceID`
unfoldable pub get_default_workspace_id :
    RbacClient → Calls → Unleash → Identity → String → Trace × Result String String
unfolding do_request_with_retry
get_default_workspace_id client calls unleash id org_id =
    let outcome =
      do_request_with_retry client calls
        (record {
          url = concat client.rbac_url "/api/rbac/v2/workspaces/?type=default";
          org_id = org_id;
          authorization = none;
        })
        (is_token_timeout_enabled unleash id) in
    (outcome.0, workspace_of calls outcome.1)
