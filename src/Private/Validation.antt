-- ===== src/Private/Validation.antt =====
-- What `validateSatelliteFields` of internal/api/controllers/private/runsCreateActions.go is for.
use playbook_dispatcher.Common.{
  ℕ, ◌≡◌, refl, true, String, Option, none, some, List, [], ◌∷◌, map, Result, ok, err, is_some, all,
  any, arith, Option-cases, Bool-cases, inl, inr, Fault,
}
use playbook_dispatcher.Model.{Uuid, RunHostsInput}
use playbook_dispatcher.Dispatch.{World, Reply}
use playbook_dispatcher.Dispatch.Totality.{Returns, has_inventory_id, process_run-Returns_satellite}
use playbook_dispatcher.Private.Inputs.{
  RunInputV2, parse_run_host, parse_run_hosts, run_input_v2_generic_map, config_sat_id,
  config_sat_org_id, validate_inventory_ids, validate_config, validate_satellite_fields,
}
use playbook_dispatcher.Private.Runs.{
  Env, created_from, parse_sat_id, dispatch_v2, create_run_v2, first_invalid, runs_create_v2,
  invalid_request,
}
use playbook_dispatcher.Validator.Steps.{is_org_id_blocklisted}

-- The hosts that are passed on.
validate_inventory_ids_lem :
    (hs : List RunHostsInput)
    → validate_inventory_ids hs ≡ none
    → all has_inventory_id (map parse_run_host hs) ≡ true
unfolding validate_inventory_ids
validate_inventory_ids_lem [] v = refl
validate_inventory_ids_lem (h ∷ hs) v = ground (arith, validate_inventory_ids_lem hs)

-- A run of Satellite that passes.
validate_config_lem :
    (text : String) (sat_org_id : Option String) (hosts : Option (List RunHostsInput))
    → validate_config (some text) sat_org_id hosts ≡ none
    → (is_some sat_org_id ≡ true) × (all has_inventory_id (parse_run_hosts hosts) ≡ true)
unfolding parse_run_hosts
validate_config_lem text none hosts v = cc
validate_config_lem text (some o) none v = cc
validate_config_lem text (some o) (some []) v = cc
validate_config_lem text (some o) (some (h ∷ hs)) v = (refl, validate_inventory_ids_lem (h ∷ hs) v)

created_from-Returns : (r : World × Result Fault Reply) → Returns r.1 → Returns (created_from r).1
created_from-Returns (w, ok reply) h = tt
created_from-Returns (w, err f) h = absurd h

dispatch_v2-Returns :
    (env : Env) (i : ℕ) (input : RunInputV2) (w : World) (text : String) (id : Uuid)
    → config_sat_id input.recipient_config ≡ some text
    → validate_satellite_fields input ≡ none
    → Returns (dispatch_v2 env i input w (ok (some id))).1
unfolding run_input_v2_generic_map validate_satellite_fields
dispatch_v2-Returns env i input w text id c v =
    let (o, a) =
      validate_config_lem text (config_sat_org_id input.recipient_config) input.hosts
        (rw (← c) v) in
    created_from-Returns _ (
      process_run-Returns_satellite (env.dispatch i) input.org_id env.psk_principal
        (run_input_v2_generic_map input input.recipient (parse_run_hosts input.hosts) (some id)) w
        refl o refl refl a)

-- A run of Satellite that `validateSatelliteFields` accepts is processed without a panic, where its id
-- of Satellite is a uuid: every field that the metadata and the rows of the hosts take is there.
pub create_run_v2-Returns :
    (env : Env) (i : ℕ) (input : RunInputV2) (w : World) {text : String} {id : Uuid}
    → config_sat_id input.recipient_config ≡ some text
    → env.parse_uuid text ≡ some id
    → validate_satellite_fields input ≡ none
    → Returns (create_run_v2 env i input w).1
unfolding create_run_v2
create_run_v2-Returns env i input w {text} {id} c p v =
    elim (Bool-cases (is_org_id_blocklisted env.blocklist_org_ids input.org_id)) [
      | inl b ↦ rw b tt
      | inr b ↦ rw (b, c, parse_sat_id, p) (dispatch_v2-Returns env i input w text id c v)
    ]

first_invalid_lem :
    (inputs : List RunInputV2)
    → any (λ i. is_some (validate_satellite_fields i)) inputs ≡ true
    → (e : String) × (first_invalid inputs ≡ some e)
unfolding first_invalid
first_invalid_lem [] h = cc
first_invalid_lem (i ∷ inputs) h = elim (Option-cases (validate_satellite_fields i)) [
  | inr (e, f) ↦ (e, rw f refl)
  | inl n ↦ let (e, f) = first_invalid_lem inputs (rw n at h) in (e, rw n f)
]

-- One run that `validateSatelliteFields` refuses is enough: then the whole request is refused with its
-- error, and no run of it is dispatched.
pub runs_create_v2-refused :
    (env : Env) (inputs : List RunInputV2) (w : World)
    → any (λ i. is_some (validate_satellite_fields i)) inputs ≡ true
    → (e : String) × (runs_create_v2 env (some inputs) w ≡ (w, ok (invalid_request e)))
unfolding runs_create_v2
runs_create_v2-refused env inputs w h = let (e, f) = first_invalid_lem inputs h in (e, rw f refl)
