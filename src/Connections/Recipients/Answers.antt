-- ===== src/Connections/Recipients/Answers.antt =====
-- What the recipients are said to be.
use playbook_dispatcher.Common.{
  ℕ, suc, ◌≡◌, refl, String, Option, none, some, List, [], ◌∷◌, Result, ok, err, >>=-eq-ok, ok_inj,
}
use playbook_dispatcher.Connections.Recipients.{
  ConnectionStatus, is_connected, RecipientWithOrg, RecipientStatus, ConnectionAnswers, ask_status,
  waited, or_internal_error, recipients_status,
}

-- One status for each recipient, in order: the rate limiter let its request pass, Cloud Connector answered
-- it, and the status says whether the recipient is connected.
abbrev pub IsStatuses :
    ConnectionAnswers → ℕ → List RecipientWithOrg → List RecipientStatus → Type 0
IsStatuses env i [] [] = Unit
IsStatuses env i (r ∷ rs) (s ∷ ss) =
    ((status : ConnectionStatus) × (env.wait i ≡ none)
      × (env.get_connection_status r.org_id r.recipient ≡ ok status)
      × (s ≡ record {
        status_org_id = r.org_id;
        status_recipient = r.recipient;
        is_reached = is_connected status;
      }))
    × IsStatuses env (suc i) rs ss
IsStatuses env i rs ss = ⊥

let_through :
    {status : ConnectionStatus} (waits : Option String) (answer : Result String ConnectionStatus)
    → waited waits (or_internal_error answer) ≡ ok status
    → (waits ≡ none) × (answer ≡ ok status)
let_through (some e) answer h = cc
let_through none (err e) h = cc
let_through none (ok status) h = (refl, cc)

-- Where the statuses are answered with 200, the rate limiter and Cloud Connector failed for none of the
-- requests, and there is one status for each recipient, in the order of the input, which says whether
-- Cloud Connector found that recipient connected.
pub recipients_status-IsStatuses :
    (env : ConnectionAnswers) (i : ℕ) (rs : List RecipientWithOrg) {ss : List RecipientStatus}
    → recipients_status env i rs ≡ ok ss
    → IsStatuses env i rs ss
unfolding recipients_status
recipients_status-IsStatuses env i [] e = rw (← ok_inj e) tt
recipients_status-IsStatuses env i (r ∷ rs) e =
    let (status, p, q) = >>=-eq-ok (ask_status env i r) _ e in
    let (results, u, v) = >>=-eq-ok (recipients_status env (suc i) rs) _ q in
    let (waits, answer) =
      let_through (env.wait i) (env.get_connection_status r.org_id r.recipient) p in
    rw (← ok_inj v) ((status, waits, answer, refl), recipients_status-IsStatuses env (suc i) rs u)
