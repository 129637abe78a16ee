-- ===== src/Validator/Steps/Receipt.antt =====
-- What the validator does with a message of ingress.
use mathlib.Core.Bool.{false≢true}
use playbook_dispatcher.Common.{
  ℕ, ◌<◌, true, arith, eqb, ◌==◌, eq_iff, split, contains, ◌⊎◌, sym, String, Option, none, some,
  List, [], ◌∷◌, ◌++◌, ◌≡◌, refl, ◌∙◌, Result, ok, Fault, Bool-cases, inl, inr,
}
use playbook_dispatcher.Model.{Integer, plus, minus}
use playbook_dispatcher.Kafka.{Message}
use playbook_dispatcher.Validator.Steps.{
  IngressRequest, validation_failure, Outbox, Validator, response_message, validation_failed,
  is_org_id_blocklisted, is_rejected_size, receive, request_type_of, on_request,
}
use playbook_dispatcher.Validator.Steps.Delivery.{HasKafkaErrors, sent, produce_message_lem}

-- A text is one of a list.
abbrev pub IsListed : String → List String → Type 0
IsListed text [] = ⊥
IsListed text (x ∷ xs) = (x ≡ text) ⊎ IsListed text xs

-- A size of zero or above the limit; a negative one is none.
abbrev pub IsWrongSize : ℕ → Integer → Type 0
IsWrongSize limit (plus n) = (n ≡ 0) ⊎ (limit < n)
IsWrongSize limit (minus n) = ⊥

-- What is done with a message of ingress: it is dropped where it does not unmarshal or its org is on the
-- blocklist; else one failure response is sent where its size is wrong, and its payload is fetched where
-- the size is right.
abbrev pub IsReceived :
    Validator → String → Option IngressRequest → Outbox → Result Fault Outbox → Type 0
IsReceived v request_type none out result = result ≡ ok out
IsReceived v request_type (some request) out result =
    (IsListed request.org_id (split b',' v.blocklist_org_ids) × (result ≡ ok out))
    ⊎ ((¬ IsListed request.org_id (split b',' v.blocklist_org_ids))
        × ((IsWrongSize v.artifact_max_size request.size
              × (result ≡ ok (sent v (response_message v request validation_failure ∷ []) out)))
            ⊎ ((¬ IsWrongSize v.artifact_max_size request.size)
                × (result
                    ≡ ok
                        (record out { requests = out.requests ++ (request_type, request) ∷ [] })))))

contains-IsListed : (text : String) (xs : List String) → contains text xs ≡ true → IsListed text xs
contains-IsListed text [] h = cc
contains-IsListed text (x ∷ xs) h = elim (Bool-cases (x == text)) [
  | inl e ↦ inl ((eq_iff x text).0 e)
  | inr e ↦ inr (contains-IsListed text xs (rw e at h))
]

IsListed-contains : (text : String) (xs : List String) → IsListed text xs → contains text xs ≡ true
IsListed-contains text [] h = absurd h
IsListed-contains text (x ∷ xs) (inl e) = rw ((eq_iff x text).1 e) refl
IsListed-contains text (x ∷ xs) (inr h) = ground (arith, IsListed-contains text xs h)

rejected-IsWrongSize :
    (v : Validator) (request : IngressRequest) (size : Integer)
    → request.size ≡ size
    → is_rejected_size v request ≡ true
    → IsWrongSize v.artifact_max_size size
unfolding is_rejected_size
rejected-IsWrongSize v request (plus n) e h =
    let k = rw e at h in
    elim (Bool-cases (eqb n 0)) [ inl z ↦ inl (ground arith) | inr z ↦ inr (ground arith) ]
rejected-IsWrongSize v request (minus n) e h = let k = rw e at h in ground arith

IsWrongSize-rejected :
    (v : Validator) (request : IngressRequest) (size : Integer)
    → request.size ≡ size
    → IsWrongSize v.artifact_max_size size
    → is_rejected_size v request ≡ true
unfolding is_rejected_size
IsWrongSize-rejected v request (plus n) e (inl z) = rw e (ground arith)
IsWrongSize-rejected v request (plus n) e (inr l) = rw e (ground arith)
IsWrongSize-rejected v request (minus n) e h = absurd h

receive-IsReceived :
    (v : Validator) (request_type : String) (o : Option IngressRequest) (out : Outbox)
    → HasKafkaErrors v
    → IsReceived v request_type o out (receive v request_type o out)
unfolding validation_failed is_org_id_blocklisted
receive-IsReceived v request_type none out h = refl
receive-IsReceived v request_type (some request) out h =
    let orgs = split b',' v.blocklist_org_ids in
    elim (Bool-cases (contains request.org_id orgs)) [
      | inl b ↦ inl (contains-IsListed request.org_id orgs b, rw b refl)
      | inr b ↦
          let free : ¬ IsListed request.org_id orgs =
            λ k. false≢true (sym b ∙ IsListed-contains request.org_id orgs k) in
          elim (Bool-cases (is_rejected_size v request)) [
            | inl r ↦ inr (
              free,
              inl (
                rejected-IsWrongSize v request request.size refl r,
                rw (b, r) (produce_message_lem v _ out h),
              ),
            )
            | inr r ↦ inr (
              free,
              inr (
                λ k. false≢true (sym r ∙ IsWrongSize-rejected v request request.size refl k),
                rw (b, r) refl,
              ),
            )
          ]
    ]

-- Where the producer fails with Kafka's errors only, a message that does not unmarshal, or whose org is on
-- the blocklist, changes nothing. Any other one has one failure response sent if its size is zero or above
-- the limit, and else, also if its size is negative, its payload is fetched.
pub on_request-IsReceived :
    (v : Validator) (msg : Message) (out : Outbox)
    → HasKafkaErrors v
    → IsReceived v (request_type_of msg) (v.unmarshal_request msg.value) out (on_request v msg out)
unfolding on_request
on_request-IsReceived v msg out h =
    receive-IsReceived v (request_type_of msg) (v.unmarshal_request msg.value) out h
