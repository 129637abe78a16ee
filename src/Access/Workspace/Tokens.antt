-- ===== src/Access/Workspace/Tokens.antt =====
-- Tokens: internal/common/kessel/token.go.
use Prim.Native.Char.{code}
use playbook_dispatcher.Common.{
  ℕ, zero, suc, ◌+◌, Bool, true, false, ◌&&◌, ◌||◌, String, Option, none, some, if◌then◌else◌, eqb,
  ◌==◌, concat, Result, ok, err,
}
use playbook_dispatcher.Access.Workspace.Client.{
  RbacClient, TokenError, Calls, before_token, after_token, in_token_backoff,
}

abbrev starts_with : String → String → Bool
starts_with s String.[] = true
starts_with String.[] (String.◌∷◌ d t) = false
starts_with (String.◌∷◌ c s) (String.◌∷◌ d t) = eqb (code c) (code d) && starts_with s t

-- `strings.Contains`
unfoldable pub contains_text : String → String → Bool
contains_text String.[] t = t == ""
contains_text (String.◌∷◌ c s) t = starts_with (String.◌∷◌ c s) t || contains_text s t

-- `categorizeTokenError`, of an error that is not nil.
unfoldable pub categorize_token_error : TokenError → String
unfolding contains_text
categorize_token_error e =
    if e.is_canceled
    then "canceled"
    else if e.is_deadline_exceeded
    then "timeout"
    else if contains_text e.text "TLS handshake timeout"
    then "tls-timeout"
    else if contains_text e.text "i/o timeout"
    then "io-timeout"
    else if contains_text e.text "connection refused"
    then "connection-refused"
    else if contains_text e.text "connection reset"
    then "connection-reset"
    else if contains_text e.text "no such host"
    then "dns-error"
    else if e.is_net_error
    then "network-error"
    else "unknown"

-- The number of tokens that were asked for, and the token or the error.
abbrev pub Acquired : Type 0
Acquired = ℕ × Result String String

abbrev pub once_more : Acquired → Acquired
once_more (n, r) = (suc n, r)

-- After a failed attempt: a canceled context or the last attempt ends the loop.
abbrev pub after_failure :
    RbacClient → TokenError → ℕ → Option String → Option String → Acquired → Acquired
after_failure client e attempt (some canceled) slept again = (1, err canceled)
after_failure client e attempt none slept again =
    if eqb attempt client.token_max_retries
    then (
      1,
      err (
          concat "OIDC token acquisition failed after all attempts ("
            (concat (categorize_token_error e) (concat "): " e.text))),
    )
    else after_sleep slept
  where
    after_sleep : Option String → Acquired
    after_sleep (some canceled) = (1, err canceled)
    after_sleep none = once_more again

abbrev pub token_attempt :
    RbacClient
    → ℕ
    → Option String
    → Result TokenError String
    → Option String
    → Option String
    → Acquired
    → Acquired
token_attempt client attempt (some canceled) answer after slept again = (0, err canceled)
token_attempt client attempt none (ok token) after slept again = (1, ok token)
token_attempt client attempt none (err e) after slept again =
    after_failure client e attempt after slept again

-- The loop of `acquireTokenWithRetry`: the rounds left, the attempt of the lookup and the attempt.
unfoldable pub token_loop : RbacClient → Calls → ℕ → ℕ → ℕ → Acquired
unfolding categorize_token_error contains_text
token_loop client calls zero workspace attempt =
    (0, err "OIDC token acquisition failed unexpectedly")
token_loop client calls (suc rounds) workspace attempt =
    let again = token_loop client calls rounds workspace (attempt + 1) in
    token_attempt client attempt (calls.ctx_err (before_token workspace attempt))
      (calls.get_token_with_context workspace attempt)
      (calls.ctx_err (after_token workspace attempt))
      (calls.ctx_err (in_token_backoff workspace attempt)) again

-- `acquireTokenWithRetry`
unfoldable pub acquire_token_with_retry : RbacClient → Calls → ℕ → Acquired
unfolding token_loop
acquire_token_with_retry client calls workspace =
    token_loop client calls (suc client.token_max_retries) workspace 0
