-- ===== src/Connections/Inventory/Sizes.antt =====
-- How many details are returned.
use playbook_dispatcher.Common.{
  ℕ, zero, suc, ◌≤◌, ◌≡◌, refl, ◌∙◌, sym, ap, String, List, [], ◌∷◌, length, Result, ok, err,
  >>=-eq-ok, ok_inj, err≢ok, ◌⊎◌, inl, inr, arith,
}
use playbook_dispatcher.Model.{Uuid}
use playbook_dispatcher.Connections.Inventory.{
  HostOut, HostDetails, SystemProfileOut, InventoryAnswers, blanks, details_of, fill_details,
  key_system_profile_results, with_profiles, with_hosts, with_uuids, str_slice_to_uuid_slice,
  get_host_connection_details,
}

length-blanks : (n : ℕ) → length (blanks n) ≡ n
unfolding blanks
length-blanks zero = refl
length-blanks (suc n) = ap suc (length-blanks n)

fill_details_lem :
    (profiles : List (String × SystemProfileOut)) (hosts : List HostOut) (n : ℕ)
    {details : List HostDetails}
    → fill_details profiles hosts n ≡ ok details
    → (length details ≡ n) × (length hosts ≤ n)
unfolding fill_details
fill_details_lem profiles [] n e = (ap length (sym (ok_inj e)) ∙ length-blanks n, omega arith)
fill_details_lem profiles (host ∷ hosts) zero e =
    absurd (err≢ok (>>=-eq-ok (details_of profiles host) _ e).2)
fill_details_lem profiles (host ∷ hosts) (suc n) e =
    let (d, p, q) = >>=-eq-ok (details_of profiles host) _ e in
    let (rest, u, v) = >>=-eq-ok (fill_details profiles hosts n) _ q in
    let (l, h) = fill_details_lem profiles hosts n u in
    (ap length (sym (ok_inj v)) ∙ ap suc l, omega (arith, h))

with_profiles_lem :
    (hosts : List HostOut) (n : ℕ) (answer : Result String (List SystemProfileOut))
    {details : List HostDetails}
    → with_profiles hosts n answer ≡ ok (ok details)
    → length details ≡ n
with_profiles_lem hosts n (err e) eq = absurd (err≢ok (ok_inj eq))
with_profiles_lem hosts n (ok profiles) eq =
    let (keyed, p, q) = >>=-eq-ok (key_system_profile_results [] profiles) _ eq in
    let (filled, u, v) = >>=-eq-ok (fill_details keyed hosts n) _ q in
    ap length (sym (ok_inj (ok_inj v))) ∙ (fill_details_lem keyed hosts n u).0

with_hosts_lem :
    (env : InventoryAnswers) (uuids : List Uuid) (n : ℕ) (answer : Result String (List HostOut))
    {details : List HostDetails}
    → with_hosts env uuids n answer ≡ ok (ok details)
    → (details ≡ []) ⊎ (length details ≡ n)
with_hosts_lem env uuids n (err e) eq = absurd (err≢ok (ok_inj eq))
with_hosts_lem env uuids n (ok []) eq = inl (sym (ok_inj (ok_inj eq)))
with_hosts_lem env uuids n (ok (host ∷ hosts)) eq =
    inr (with_profiles_lem (host ∷ hosts) n (env.get_profiles uuids) eq)

with_uuids_lem :
    (env : InventoryAnswers) (n : ℕ) (answer : Result String (List Uuid))
    {details : List HostDetails}
    → with_uuids env n answer ≡ ok (ok details)
    → (details ≡ []) ⊎ (length details ≡ n)
with_uuids_lem env n (err e) eq = absurd (err≢ok (ok_inj eq))
with_uuids_lem env n (ok uuids) eq = with_hosts_lem env uuids n (env.get_hosts uuids) eq

-- Where the details are returned, there are none, or as many as ids were asked for, however many hosts
-- the inventory found.
length-get_host_connection_details :
    (env : InventoryAnswers) (ids : List String) {details : List HostDetails}
    → get_host_connection_details env ids ≡ ok (ok details)
    → (details ≡ []) ⊎ (length details ≡ length ids)
unfolding get_host_connection_details
length-get_host_connection_details env ids e =
    with_uuids_lem env (length ids) (str_slice_to_uuid_slice env ids) e
