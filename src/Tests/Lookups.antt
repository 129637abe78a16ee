-- ===== src/Tests/Lookups.antt =====
-- A lookup of a workspace that succeeds at its third attempt.
use playbook_dispatcher.Common.{
  ℕ, ◌≡◌, ◌≤◌, refl, true, false, none, some, [], ◌∷◌, ok, if◌then◌else◌, ltb, arith,
}
use playbook_dispatcher.Model.{plus}
use playbook_dispatcher.Access.Workspace.Client.{
  RbacClientConfig, RbacClient, new_rbac_client, HttpReply, replied, transport_error, should_retry,
  Calls,
}
use playbook_dispatcher.Access.Workspace.Lookup.{Request, do_request_with_retry}
use playbook_dispatcher.Access.Workspace.Limits.{IsWithin, new_rbac_client-IsWithin}
use playbook_dispatcher.Access.Workspace.Retries.{IsLookup, do_request_with_retry-IsLookup}
use playbook_dispatcher.Access.Workspace.Success.{do_request_with_retry-returns}

abbrev pub token_config : RbacClientConfig
token_config = record {
  token_timeout = plus 500_000_000;
  token_max_retries = plus 9;
  token_max_retries_set = true;
}

abbrev client : RbacClient
client = record {
  rbac_url = "http://rbac:8080";
  has_token_client = true;
  max_retries = 3;
  initial_backoff = 100_000_000;
  max_backoff = 2_000_000_000;
  request_timeout = plus 10_000_000_000;
  token_timeout = plus 1_000_000_000;
  token_max_retries = 5;
}

abbrev reply_at : ℕ → HttpReply
reply_at attempt =
    if ltb attempt 1
    then replied 503 (ok "")
    else if ltb attempt 2
    then transport_error "connection reset"
    else replied 200 (ok "body")

abbrev pub calls : Calls
calls = record {
  ctx_err = λ moment. none;
  get_token = λ attempt. ok "token";
  get_token_with_context = λ workspace attempt. ok "token";
  respond = reply_at;
  decode = λ body. some ("w1" ∷ []);
}

abbrev request : Request
request = record { url = "http://rbac:8080"; org_id = "o1"; authorization = none }

new_rbac_client-IsWithin_example :
    IsWithin 1_000_000_000 10_000_000_000
      (new_rbac_client "http://rbac:8080" true (plus 10_000_000_000) token_config).token_timeout
    × ((new_rbac_client "http://rbac:8080" true
          (plus 10_000_000_000)
          token_config).token_max_retries
        ≤ 5)
new_rbac_client-IsWithin_example =
    new_rbac_client-IsWithin "http://rbac:8080" true 10_000_000_000 token_config (omega arith)

do_request_with_retry-IsLookup_example :
    IsLookup 4 (do_request_with_retry client calls request false)
do_request_with_retry-IsLookup_example = do_request_with_retry-IsLookup client calls request false

do_request_with_retry-returns_example :
    (do_request_with_retry client calls request false).1 ≡ ok ("body", 200)
unfolding should_retry
do_request_with_retry-returns_example =
    do_request_with_retry-returns client calls false request 2 "body" 200
      (λ moment. refl, λ attempt. ("token", refl)) (refl, (refl, (refl, refl))) (omega arith)
