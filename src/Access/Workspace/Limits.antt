-- ===== src/Access/Workspace/Limits.antt =====
-- The limits that the configuration of the client is brought into, and what they bound.
use playbook_dispatcher.Common.{
  ℕ, zero, suc, ◌+◌, ◌*◌, ◌≤◌, ◌≡◌, Bool, true, false, String, Option, none, some, Result, ok, err,
  if◌then◌else◌, ltb, eqb, inl, inr, Bool-cases, arith,
}
use native.Mathlib.Nat.{mul_left_comm}
use playbook_dispatcher.Model.{Integer, plus, minus, integer_lt}
use playbook_dispatcher.Access.Workspace.Client.{
  RbacClientConfig, RbacClient, limit_token_timeout, limit_token_retries, new_rbac_client, Calls,
  TokenError, power_of_two, capped_backoff,
}
use playbook_dispatcher.Access.Workspace.Tokens.{
  Acquired, token_attempt, token_loop, acquire_token_with_retry, after_failure,
}

abbrev pub IsWithin : ℕ → ℕ → Integer → Type 0
IsWithin low high (plus n) = (low ≤ n) × (n ≤ high)
IsWithin low high (minus n) = ⊥

limit_token_timeout-IsWithin :
    (timeout : ℕ) (configured : Integer)
    → 3_000_000_000 ≤ timeout
    → IsWithin 1_000_000_000 timeout (limit_token_timeout (plus timeout) configured)
unfolding limit_token_timeout
limit_token_timeout-IsWithin timeout (minus n) h = (omega arith, h)
limit_token_timeout-IsWithin timeout (plus n) h = elim (Bool-cases (integer_lt (plus n) (plus 1))) [
  | inl a ↦ rw a (omega arith, h)
  | inr a ↦ elim (Bool-cases (integer_lt (plus n) (plus 1_000_000_000))) [
    | inl b ↦ rw (a, b) (omega arith, omega arith)
    | inr b ↦ elim (Bool-cases (integer_lt (plus timeout) (plus n))) [
      | inl c ↦ rw (a, b, c) (omega arith, omega arith)
      | inr c ↦ rw (a, b, c) (ground arith, ground arith)
    ]
  ]
]

limit_token_retries-le :
    (is_set : Bool) (configured : Integer) → limit_token_retries is_set configured ≤ 5
unfolding limit_token_retries
limit_token_retries-le false configured = omega arith
limit_token_retries-le true (minus n) = omega arith
limit_token_retries-le true (plus n) = ground arith

-- With a request timeout of at least three seconds, the client's token timeout lies between one second
-- and the request timeout; it retries a token at most five times, whatever is configured.
pub new_rbac_client-IsWithin :
    (rbac_url : String) (has_token_client : Bool) (timeout : ℕ) (cfg : RbacClientConfig)
    → 3_000_000_000 ≤ timeout
    → IsWithin 1_000_000_000 timeout
        (new_rbac_client rbac_url has_token_client (plus timeout) cfg).token_timeout
      × ((new_rbac_client rbac_url has_token_client (plus timeout) cfg).token_max_retries ≤ 5)
unfolding new_rbac_client
new_rbac_client-IsWithin rbac_url has_token_client timeout cfg h = (
  limit_token_timeout-IsWithin timeout cfg.token_timeout h,
  limit_token_retries-le cfg.token_max_retries_set cfg.token_max_retries,
)

failure-le :
    (n : ℕ) (client : RbacClient) (e : TokenError) (attempt : ℕ) (after slept : Option String)
    (again : Acquired)
    → again.0 ≤ n
    → (after_failure client e attempt after slept again).0 ≤ suc n
failure-le n client e attempt (some c) slept again h = omega arith
failure-le n client e attempt none (some c) again h =
    elim (Bool-cases (eqb attempt client.token_max_retries)) [
      | inl end ↦ rw end (omega arith)
      | inr more ↦ rw more (omega arith)
    ]
failure-le n client e attempt none none again h =
    elim (Bool-cases (eqb attempt client.token_max_retries)) [
      | inl end ↦ rw end (omega arith)
      | inr more ↦ rw more (omega arith)
    ]

attempt-le :
    (n : ℕ) (client : RbacClient) (attempt : ℕ) (before : Option String)
    (answer : Result TokenError String) (after slept : Option String) (again : Acquired)
    → again.0 ≤ n
    → (token_attempt client attempt before answer after slept again).0 ≤ suc n
attempt-le n client attempt (some c) answer after slept again h = omega arith
attempt-le n client attempt none (ok token) after slept again h = omega arith
attempt-le n client attempt none (err e) after slept again h =
    failure-le n client e attempt after slept again h

token_loop-le :
    (client : RbacClient) (calls : Calls) (rounds workspace attempt : ℕ)
    → (token_loop client calls rounds workspace attempt).0 ≤ rounds
unfolding token_loop
token_loop-le client calls zero workspace attempt = omega arith
token_loop-le client calls (suc rounds) workspace attempt =
    attempt-le rounds client attempt _ _ _ _ _
      (token_loop-le client calls rounds workspace (attempt + 1))

-- One attempt of a lookup asks for a token at most six times.
pub acquire_token_with_retry-le :
    (rbac_url : String) (has_token_client : Bool) (timeout : Integer) (cfg : RbacClientConfig)
    (calls : Calls) (workspace : ℕ)
    → (acquire_token_with_retry
        (new_rbac_client rbac_url has_token_client timeout cfg)
        calls
        workspace).0
      ≤ 6
unfolding acquire_token_with_retry new_rbac_client
acquire_token_with_retry-le rbac_url has_token_client timeout cfg calls workspace = omega (
  arith,
  token_loop-le (new_rbac_client rbac_url has_token_client timeout cfg) calls
      (suc (limit_token_retries cfg.token_max_retries_set cfg.token_max_retries)) workspace 0,
  limit_token_retries-le cfg.token_max_retries_set cfg.token_max_retries,
)

double_cap :
    (m x : ℕ)
    → (if ltb m (2 * x) then m else 2 * x)
      ≡ (if ltb m (2 * (if ltb m x then m else x)) then m else 2 * (if ltb m x then m else x))
double_cap m x = ground arith

-- A backoff is at most the cap, and doubles from one attempt to the next until it reaches it.
pub capped_backoff_lem :
    (client : RbacClient) (attempt : ℕ)
    → (capped_backoff client attempt ≤ client.max_backoff)
      × (capped_backoff client (suc attempt) ≡ (
          if ltb client.max_backoff (2 * capped_backoff client attempt)
          then client.max_backoff
          else 2 * capped_backoff client attempt))
unfolding capped_backoff power_of_two
capped_backoff_lem client attempt = (
  ground arith,
  rw (mul_left_comm client.initial_backoff 2 (power_of_two attempt))
      (double_cap client.max_backoff (client.initial_backoff * power_of_two attempt)),
)
