-- ===== src/Connections/Status/Grouping.antt =====
-- How often the hosts stand in the groups of their Satellites.
use playbook_dispatcher.Common.{
  ℕ, ◌+◌, ◌≡◌, refl, Bool, true, false, String, List, [], ◌∷◌, ◌++◌, ◌==◌, concat, Result, ok, err,
  >>=-eq-ok, ok_inj, deref, arith,
}
use playbook_dispatcher.Connections.Inventory.{HostDetails}
use playbook_dispatcher.Connections.Status.{
  RecipientWithConnectionInfo, SourceConnectionStatus, RhcSatellite, StatusAnswers, add_to,
  add_in_group, new_satellite, group_hosts_by_satellite, set_source, get_source_info, ids_of,
}

abbrev pub tick : Bool → ℕ
tick true = 1
tick false = 0

-- How often an id stands in a list.
abbrev pub occurrences : String → List String → ℕ
occurrences x [] = 0
occurrences x (y ∷ ys) = tick (x == y) + occurrences x ys

abbrev pub reported : List RecipientWithConnectionInfo → List String
reported [] = []
reported (info ∷ infos) = info.systems ++ reported infos

abbrev pub grouped : List (String × RhcSatellite) → List String
grouped [] = []
grouped ((k, s) ∷ groups) = s.hosts ++ grouped groups

module _ (x : String) where
  pub occurrences-append :
      (xs ys : List String) → occurrences x (xs ++ ys) ≡ occurrences x xs + occurrences x ys
  occurrences-append [] ys = omega arith
  occurrences-append (y ∷ xs) ys = omega (arith, occurrences-append xs ys)

  pub reported-append :
      (xs ys : List RecipientWithConnectionInfo)
      → occurrences x (reported (xs ++ ys))
        ≡ occurrences x (reported xs) + occurrences x (reported ys)
  reported-append [] ys = omega arith
  reported-append (i ∷ xs) ys = omega (
    arith,
    reported-append xs ys,
    occurrences-append i.systems (reported (xs ++ ys)),
    occurrences-append i.systems (reported xs),
  )

  add_in_group_lem :
      (b : Bool) (k : String) (s : RhcSatellite) (id : String)
      (groups rest : List (String × RhcSatellite))
      → occurrences x (grouped rest) ≡ occurrences x (grouped groups) + tick (x == id)
      → occurrences x (grouped (add_in_group b k s id groups rest))
        ≡ occurrences x (grouped ((k, s) ∷ groups)) + tick (x == id)
  add_in_group_lem true k s id groups rest h = omega (
    arith,
    occurrences-append (s.hosts ++ id ∷ []) (grouped groups),
    occurrences-append s.hosts (id ∷ []),
    occurrences-append s.hosts (grouped groups),
  )
  add_in_group_lem false k s id groups rest h = omega (
    arith,
    h,
    occurrences-append s.hosts (grouped groups),
    occurrences-append s.hosts (grouped rest),
  )

  add_to_lem :
      (key : String) (new : RhcSatellite) (id : String) (groups : List (String × RhcSatellite))
      → new.hosts ≡ id ∷ []
      → occurrences x (grouped (add_to key new id groups))
        ≡ occurrences x (grouped groups) + tick (x == id)
  add_to_lem key new id [] e = rw e (omega arith)
  add_to_lem key new id ((k, s) ∷ groups) e =
      add_in_group_lem (key == k) k s id groups (add_to key new id groups)
        (add_to_lem key new id groups e)

  -- Grouping loses no host and doubles none.
  pub group_hosts_by_satellite_lem :
      (groups : List (String × RhcSatellite)) (hosts : List HostDetails)
      {result : List (String × RhcSatellite)}
      → group_hosts_by_satellite groups hosts ≡ ok result
      → occurrences x (grouped result)
        ≡ occurrences x (grouped groups) + occurrences x (ids_of hosts)
  unfolding group_hosts_by_satellite
  group_hosts_by_satellite_lem groups [] e = rw (← ok_inj e) (omega arith)
  group_hosts_by_satellite_lem groups (host ∷ hosts) e =
      let (sat, p, q) = >>=-eq-ok (deref host.satellite_instance_id) _ e in
      let (org, u, v) = >>=-eq-ok (deref host.satellite_org_id) _ q in
      omega (
        arith,
        group_hosts_by_satellite_lem
            (add_to (concat sat org) (new_satellite sat org host) host.id groups) hosts v,
        add_to_lem (concat sat org) (new_satellite sat org host) host.id groups refl,
      )

set_source-hosts :
    (source : Result String SourceConnectionStatus) (s : RhcSatellite)
    → (set_source source s).hosts ≡ s.hosts
set_source-hosts (err e) s = refl
set_source-hosts (ok source) s = refl

pub get_source_info-grouped :
    (env : StatusAnswers) (groups : List (String × RhcSatellite))
    → grouped (get_source_info env groups) ≡ grouped groups
unfolding get_source_info
get_source_info-grouped env [] = refl
get_source_info-grouped env ((k, s) ∷ groups) =
    rw (set_source-hosts (env.source_details s.satellite_id) s, get_source_info-grouped env groups)
      refl
