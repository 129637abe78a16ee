-- ===== src/ResponseConsumer/RunHosts/Upsert.antt =====
-- The table `run_hosts` as a map from run and host to row, and what `createRecord` does to it.
use playbook_dispatcher.Common.{
  ◌≡◌, refl, Bool, true, ◌&&◌, String, Option, none, some, List, [], ◌∷◌, arith, ◌==◌, eq_iff,
  eq_refl, if◌then◌else◌,
}
use playbook_dispatcher.Model.{
  Uuid, RunHost, RunStatus, running, success, failure, timeout, canceled, is_complete,
}
use playbook_dispatcher.ResponseConsumer.RunHosts.{same_key, do_update, upsert, create_record}

unfoldable pub is_at : Uuid → String → RunHost → Bool
is_at run_id host r = r.run_id == run_id && r.host == host

unfoldable pub find_host : Uuid → String → List RunHost → Option RunHost
find_host run_id host [] = none
find_host run_id host (r ∷ rs) = if is_at run_id host r then some r else find_host run_id host rs

-- A row that is written over: a success and a failure stay.
abbrev pub overwrite : RunStatus → RunHost → RunStatus → String → RunHost
overwrite success old status log = old
overwrite failure old status log = old
overwrite _ old status log = record old { status = status; log = log }

-- What stands at a place where `old` stood, when `new` is written there: a row that is neither a success
-- nor a failure gets the new status and the new log.
abbrev pub merge : Option RunHost → Option RunHost → Option RunHost
merge old none = old
merge none (some new) = some new
merge (some old) (some new) = some (overwrite old.status old new.status new.log)

-- No two rows are of one host of one run.
abbrev pub HasDistinctKeys : List RunHost → Type 0
HasDistinctKeys [] = Unit
HasDistinctKeys (r ∷ rs) = (find_host r.run_id r.host rs ≡ none) × HasDistinctKeys rs

is_at_of_same_key :
    (run_id : Uuid) (host : String) (a b : RunHost)
    → same_key a b ≡ true
    → is_at run_id host a ≡ is_at run_id host b
unfolding same_key is_at
is_at_of_same_key run_id host a b h = ground (arith, eq_iff a.run_id b.run_id, eq_iff a.host b.host)

same_key_of_is_at :
    (run_id : Uuid) (host : String) (a b : RunHost)
    → is_at run_id host a ≡ true
    → is_at run_id host b ≡ true
    → same_key a b ≡ true
unfolding same_key is_at
same_key_of_is_at run_id host a b h k = ground (
  arith,
  eq_iff a.run_id run_id,
  eq_iff b.run_id run_id,
  eq_iff a.host host,
  eq_iff b.host host,
  eq_iff a.run_id b.run_id,
  eq_iff a.host b.host,
)

is_at-do_update :
    (run_id : Uuid) (host : String) (old new : RunHost)
    → is_at run_id host (do_update old new) ≡ is_at run_id host old
unfolding is_at do_update
is_at-do_update run_id host old new = ground arith

is_at_self : (r : RunHost) → is_at r.run_id r.host r ≡ true
unfolding is_at
is_at_self r = ground (arith, eq_refl r.run_id, eq_refl r.host)

overwrite_lem :
    (old new : RunHost) (found : RunStatus)
    → (if is_complete found then old else record old { status = new.status; log = new.log })
      ≡ overwrite found old new.status new.log
overwrite_lem old new running = refl
overwrite_lem old new success = refl
overwrite_lem old new failure = refl
overwrite_lem old new timeout = refl
overwrite_lem old new canceled = refl

do_update_lem :
    (old new : RunHost) → do_update old new ≡ overwrite old.status old new.status new.log
unfolding do_update
do_update_lem old new = overwrite_lem old new old.status

abbrev written : Uuid → String → RunHost → Option RunHost → Option RunHost
written run_id host new found = if is_at run_id host new then merge found (some new) else found

find_host-upsert :
    (run_id : Uuid) (host : String) (new : RunHost) (rows : List RunHost)
    → find_host run_id host (upsert new rows) ≡ written run_id host new (find_host run_id host rows)
unfolding find_host upsert
find_host-upsert run_id host new [] = ground arith
find_host-upsert run_id host new (old ∷ rows) = ground (
  arith,
  is_at_of_same_key run_id host old new,
  same_key_of_is_at run_id host old new,
  do_update_lem old new,
  is_at-do_update run_id host old new,
  find_host-upsert run_id host new rows,
)

find_host-at :
    (run_id : Uuid) (host : String) (r : RunHost) (rows : List RunHost)
    → is_at run_id host r ≡ true
    → find_host run_id host rows ≡ find_host r.run_id r.host rows
unfolding is_at
find_host-at run_id host r rows h = ground (arith, eq_iff r.run_id run_id, eq_iff r.host host)

-- `createRecord` writes each new row at its place: a row that is there already keeps all but its
-- status and its log, and all of it once it is marked as complete. Nothing else changes.
pub find_host-create_record :
    (run_id : Uuid) (host : String) (new rows : List RunHost)
    → HasDistinctKeys new
    → find_host run_id host (create_record new rows)
      ≡ merge (find_host run_id host rows) (find_host run_id host new)
unfolding find_host create_record
find_host-create_record run_id host [] rows d = refl
find_host-create_record run_id host (n ∷ more) rows (fresh, d) = ground (
  arith,
  find_host-create_record run_id host more (upsert n rows) d,
  find_host-upsert run_id host n rows,
  find_host-at run_id host n more,
)
