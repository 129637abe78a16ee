-- ===== src/Access/Workspace/Client.antt =====
-- The client that looks up the default workspace of an org: internal/common/kessel/rbac.go.
--
-- Durations are in nanoseconds. What the context, the token client and the service answer at each
-- moment of a lookup are parameters, `Calls`. The jitter of a backoff and the sleeps are left out.
use playbook_dispatcher.Common.{
  ℕ, zero, suc, ◌*◌, Bool, true, false, ◌&&◌, ◌||◌, String, Option, List, if◌then◌else◌, ltb, leb,
  eqb, Result,
}
use playbook_dispatcher.Model.{Integer, plus, minus, integer_lt}

pub record RbacClientConfig : Type 0 where
  pub token_timeout : Integer
  pub token_max_retries : Integer
  pub token_max_retries_set : Bool

-- `rbacClientImpl`
pub record RbacClient : Type 0 where
  pub rbac_url : String
  pub has_token_client : Bool
  pub max_retries : ℕ
  pub initial_backoff : ℕ
  pub max_backoff : ℕ
  pub request_timeout : Integer
  pub token_timeout : Integer
  pub token_max_retries : ℕ

-- The limits of `NewRbacClient`.
unfoldable pub limit_token_timeout : Integer → Integer → Integer
limit_token_timeout timeout configured =
    if integer_lt configured (plus 1)
    then plus 3_000_000_000
    else if integer_lt configured (plus 1_000_000_000)
    then plus 1_000_000_000
    else if integer_lt timeout configured
    then timeout
    else configured

unfoldable pub limit_token_retries : Bool → Integer → ℕ
limit_token_retries false configured = 2
limit_token_retries true (minus n) = 2
limit_token_retries true (plus n) = if ltb 5 n then 5 else n

-- `NewRbacClient`
unfoldable pub new_rbac_client : String → Bool → Integer → RbacClientConfig → RbacClient
new_rbac_client rbac_url has_token_client timeout cfg = record {
  rbac_url = rbac_url;
  has_token_client = has_token_client;
  max_retries = 3;
  initial_backoff = 100_000_000;
  max_backoff = 2_000_000_000;
  request_timeout = timeout;
  token_timeout = limit_token_timeout timeout cfg.token_timeout;
  token_max_retries = limit_token_retries cfg.token_max_retries_set cfg.token_max_retries;
}

-- `1 << attempt`
unfoldable pub power_of_two : ℕ → ℕ
power_of_two zero = 1
power_of_two (suc n) = 2 * power_of_two n

-- The backoff of `calculateBackoff` before its jitter.
unfoldable pub capped_backoff : RbacClient → ℕ → ℕ
unfolding power_of_two
capped_backoff client attempt =
    let backoff = client.initial_backoff * power_of_two attempt in
    if ltb client.max_backoff backoff then client.max_backoff else backoff

-- What a sent request is answered: an error of the transport, or a status with what reading the body
-- returns.
pub data HttpReply : Type 0 where
  transport_error : String → HttpReply
  replied : ℕ → Result String String → HttpReply

-- `shouldRetry`
unfoldable pub should_retry : HttpReply → Bool
should_retry (transport_error e) = true
should_retry (replied code body) = (leb 500 code && ltb code 600) || eqb code 429

-- The moments at which `ctx.Err()` is read: by the attempt, and by the attempt at a token within it.
pub data Moment : Type 0 where
  before_attempt before_sleep : ℕ → Moment
  before_token after_token in_token_backoff : ℕ → ℕ → Moment

-- An error of the token client, by what `errors.Is`, `Error` and `errors.As` say of it.
pub record TokenError : Type 0 where
  pub is_canceled : Bool
  pub is_deadline_exceeded : Bool
  pub text : String
  pub is_net_error : Bool

pub record Calls : Type 0 where
  pub ctx_err : Moment → Option String
  pub get_token : ℕ → Result String String
  pub get_token_with_context : ℕ → ℕ → Result TokenError String
  pub respond : ℕ → HttpReply
  pub decode : String → Option (List String)
