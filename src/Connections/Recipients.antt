-- ===== src/Connections/Recipients.antt =====
-- The statuses of recipients: internal/api/controllers/private/recipientStatus.go. What the rate limiter
-- and Cloud Connector answer to the requests is a parameter; the requests are made one after another.
pub mod Answers
use playbook_dispatcher.Common.{
  ℕ, suc, Bool, true, false, String, Option, none, some, List, [], ◌∷◌, ◌==◌, Result, ok, err,
  ◌>>=◌,
}
use playbook_dispatcher.Model.{Uuid}

pub data ConnectionStatus : Type 0 where
  connected disconnected : ConnectionStatus

abbrev pub is_connected : ConnectionStatus → Bool
is_connected connected = true
is_connected disconnected = false

pub record RecipientWithOrg : Type 0 where
  pub org_id : String
  pub recipient : Uuid

pub record RecipientStatus : Type 0 where
  pub status_org_id : String
  pub status_recipient : Uuid
  pub is_reached : Bool

-- The rate limiter, by the number of the request, and Cloud Connector.
pub record ConnectionAnswers : Type 0 where
  pub wait : ℕ → Option String
  pub get_connection_status : String → Uuid → Result String ConnectionStatus

-- `recipientStatusResponse`
abbrev pub recipient_status_response : RecipientWithOrg → Bool → RecipientStatus
recipient_status_response r reached = record {
  status_org_id = r.org_id;
  status_recipient = r.recipient;
  is_reached = reached;
}

abbrev pub waited : Option String → Result ℕ ConnectionStatus → Result ℕ ConnectionStatus
waited (some e) status = err 500
waited none status = status

abbrev pub or_internal_error : Result String ConnectionStatus → Result ℕ ConnectionStatus
or_internal_error (ok status) = ok status
or_internal_error (err e) = err 500

-- One round of the loop.
abbrev pub ask_status : ConnectionAnswers → ℕ → RecipientWithOrg → Result ℕ ConnectionStatus
ask_status env i r =
    waited (env.wait i) (or_internal_error (env.get_connection_status r.org_id r.recipient))

-- The loop of `ApiInternalV2RecipientsStatus`; a number is the status of a reply without content.
unfoldable pub recipients_status :
    ConnectionAnswers → ℕ → List RecipientWithOrg → Result ℕ (List RecipientStatus)
recipients_status env i [] = ok []
recipients_status env i (r ∷ rs) = ask_status env i r >>= λ status.
    recipients_status env (suc i) rs >>= λ results.
    ok (recipient_status_response r (is_connected status) ∷ results)
