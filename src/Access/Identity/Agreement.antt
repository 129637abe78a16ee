-- ===== src/Access/Identity/Agreement.antt =====
-- The two readings of the type of an identity.
use playbook_dispatcher.Common.{
  ◌≡◌, refl, false, String, Option, none, some, ◌==◌, eq_iff, ok, err≢ok, ok_inj, ◌⊎◌, inl, inr,
  Bool-cases,
}
use playbook_dispatcher.Access.Identity.{
  Identity, next, to_lower, enforce_identity_type, extract_user_id, required_id,
}

required_id-eq-ok :
    (message : String) (given : Option String) {user_id : String}
    → required_id message given ≡ ok user_id
    → (user_id == "") ≡ false
required_id-eq-ok message none e = cc
required_id-eq-ok message (some given) e = elim (Bool-cases (given == "")) [
  | inl h ↦ absurd (err≢ok (rw h at e))
  | inr h ↦ rw (← ok_inj (rw h at e)) h
]

enforced :
    (t : String) (id : Identity)
    → id.identity_type ≡ t
    → (t == "") ≡ false
    → (to_lower t ≡ "user") ⊎ (to_lower t ≡ "serviceaccount")
    → enforce_identity_type id ≡ next
unfolding enforce_identity_type
enforced t id e n (inl h) = rw (e, n, h) refl
enforced t id e n (inr h) = rw (e, n, h) refl

-- An identity of which Kessel's user id can be taken is one that `EnforceIdentityType` lets pass, and
-- the user id is not empty.
pub extract_user_id-enforced :
    (id : Identity) (user_id : String)
    → extract_user_id id ≡ ok user_id
    → (enforce_identity_type id ≡ next) × ((user_id == "") ≡ false)
unfolding extract_user_id to_lower
extract_user_id-enforced id user_id e = elim (Bool-cases (id.identity_type == "User")) [
  | inl u ↦ (
    enforced "User" id ((eq_iff id.identity_type "User").0 u) refl (inl refl),
    required_id-eq-ok _ id.user (rw u at e),
  )
  | inr u ↦ elim (Bool-cases (id.identity_type == "ServiceAccount")) [
    | inl s ↦ (
      enforced "ServiceAccount" id ((eq_iff id.identity_type "ServiceAccount").0 s) refl (inr refl),
      required_id-eq-ok _ id.service_account (rw (u, s) at e),
    )
    | inr s ↦ absurd (err≢ok (rw (u, s) at e))
  ]
]
