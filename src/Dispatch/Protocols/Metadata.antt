-- ===== src/Dispatch/Protocols/Metadata.antt =====
-- What the metadata of internal/api/dispatch/protocols tells a worker.
use mathlib.Core.Option
use playbook_dispatcher.Common.{
  String, Option, none, some, List, [], ◌∷◌, ◌≡◌, refl, Result, ok, err, ◌>>=◌, Fault, lookup,
  insert, deref,
}
use playbook_dispatcher.Model.{Uuid, GenericRunInput}
use playbook_dispatcher.Dispatch.Protocols.{
  Config, Protocol, runner_protocol, satellite_protocol, Metadata, join, get_hosts_line, subman_ids,
  insert_subman_ids, format_bool, satellite_meta_data, build_meta_data,
}

-- The key under which a worker finds the correlation id.
abbrev pub correlation_key : Protocol → String
correlation_key runner_protocol = "crc_dispatcher_correlation_id"
correlation_key satellite_protocol = "correlation_id"

abbrev pub CarriesId : Protocol → Uuid → Result Fault Metadata → Type 0
CarriesId p id (ok metadata) = lookup (correlation_key p) metadata ≡ some id
CarriesId p id (err f) = Unit

-- The joined ids, where there is one.
abbrev pub expected_subman_ids : List String → Option String
expected_subman_ids [] = none
expected_subman_ids (id ∷ ids) = some (join (id ∷ ids))

-- What Satellite is told of a run.
abbrev pub TellsRun :
    (String → String) → GenericRunInput → Uuid → Config → Result Fault Metadata → Type 0
TellsRun hash run id cfg (err f) = Unit
TellsRun hash run id cfg (ok m) =
    (lookup "operation" m ≡ some "run")
    × (lookup "correlation_id" m ≡ some id)
    × (lookup "sat_id" m ≡ run.sat_id)
    × (lookup "sat_org_id" m ≡ run.sat_org_id)
    × (lookup "playbook_run_name" m ≡ run.name)
    × (lookup "playbook_run_url" m ≡ run.web_console_url)
    × (lookup "initiator_user_id" m ≡ Option.map hash run.principal)
    × (lookup "subscription_manager_ids" m ≡ expected_subman_ids (subman_ids run.hosts))
    × (lookup "return_url" m ≡ some cfg.return_url)

module _ (hash : String → String) (run : GenericRunInput) (id : Uuid) (cfg : Config) where
  abbrev told : String → String → String → String → String → String → List String → Metadata
  told hosts principal name url sat_id sat_org_id ids =
      insert "response_full" (format_bool cfg.satellite_response_full) (
        insert_subman_ids ids (
          ("return_url", cfg.return_url)
          ∷ ("response_interval", cfg.response_interval)
          ∷ ("operation", "run")
          ∷ ("correlation_id", id)
          ∷ ("playbook_run_name", name)
          ∷ ("playbook_run_url", url)
          ∷ ("sat_id", sat_id)
          ∷ ("sat_org_id", sat_org_id)
          ∷ ("initiator_user_id", hash principal)
          ∷ ("hosts", hosts)
          ∷ []))

  told_lem :
      (hosts principal name url sat_id sat_org_id : String) (ids : List String)
      → let m = told hosts principal name url sat_id sat_org_id ids in
        (lookup "operation" m ≡ some "run")
        × (lookup "correlation_id" m ≡ some id)
        × (lookup "sat_id" m ≡ some sat_id)
        × (lookup "sat_org_id" m ≡ some sat_org_id)
        × (lookup "playbook_run_name" m ≡ some name)
        × (lookup "playbook_run_url" m ≡ some url)
        × (lookup "initiator_user_id" m ≡ some (hash principal))
        × (lookup "subscription_manager_ids" m ≡ expected_subman_ids ids)
        × (lookup "return_url" m ≡ some cfg.return_url)
  unfolding lookup insert
  told_lem hosts principal name url sat_id sat_org_id [] =
      (refl, refl, refl, refl, refl, refl, refl, refl, refl)
  told_lem hosts principal name url sat_id sat_org_id (i ∷ ids) =
      (refl, refl, refl, refl, refl, refl, refl, refl, refl)

  -- Satellite is told to run, under the correlation id, with the run's own fields and the hash of its
  -- principal; the subscription manager ids are there if and only if a host has one, in the hosts'
  -- order. Where a field that Satellite needs is missing, building the metadata panics.
  pub satellite_meta_data_lem : TellsRun hash run id cfg (satellite_meta_data hash run id cfg)
  unfolding satellite_meta_data
  satellite_meta_data_lem =
      go (get_hosts_line run) run.principal run.name run.web_console_url run.sat_id run.sat_org_id
    where
      go :
          (hosts : Result Fault String) (principal name url sat_id sat_org_id : Option String)
          → TellsRun hash
              (record run {
                principal = principal;
                name = name;
                web_console_url = url;
                sat_id = sat_id;
                sat_org_id = sat_org_id;
              })
              id
              cfg
              (hosts >>= λ h. deref principal >>= λ p. deref name >>= λ n. deref url >>= λ u.
                deref sat_id >>= λ s.
                deref sat_org_id >>= λ o. ok (told h p n u s o (subman_ids run.hosts)))
      go (err f) p n u s o = tt
      go (ok h) none n u s o = tt
      go (ok h) (some p) none u s o = tt
      go (ok h) (some p) (some n) none s o = tt
      go (ok h) (some p) (some n) (some u) none o = tt
      go (ok h) (some p) (some n) (some u) (some s) none = tt
      go (ok h) (some p) (some n) (some u) (some s) (some o) =
          told_lem h p n u s o (subman_ids run.hosts)

  satellite-CarriesId :
      (m : Result Fault Metadata) → TellsRun hash run id cfg m → CarriesId satellite_protocol id m
  satellite-CarriesId (err f) t = tt
  satellite-CarriesId (ok m) t = t.1

  -- Whichever the protocol, the worker finds the correlation id under the key of its protocol.
  pub build_meta_data-CarriesId :
      (p : Protocol) → CarriesId p id (build_meta_data hash p run id cfg)
  unfolding build_meta_data lookup
  build_meta_data-CarriesId runner_protocol = refl
  build_meta_data-CarriesId satellite_protocol = satellite-CarriesId _ satellite_meta_data_lem
