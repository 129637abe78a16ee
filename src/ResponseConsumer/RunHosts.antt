-- ===== src/ResponseConsumer/RunHosts.antt =====
-- The writes to the table `run_hosts` in internal/response-consumer/handler.go, as the functions on
-- its rows that the SQL statements stand for. A comparison with a null column holds for no row.
pub mod Upsert
pub mod Sequence
use playbook_dispatcher.Common.{
  ℕ, suc, ◌+◌, ◌<◌, Bool, true, false, ◌&&◌, ◌||◌, String, Option, none, some, List, [], ◌∷◌, ◌++◌,
  map, if◌then◌else◌, ltb, ◌==◌, concat,
}
use playbook_dispatcher.Model.{Uuid, RunHost, is_complete}

-- The conflict target: the columns `run_id` and `host`, unique together.
unfoldable pub same_key : RunHost → RunHost → Bool
same_key a b = a.run_id == b.run_id && a.host == b.host

-- `DoUpdates` of `createRecord`, under `notMarkedAsComplete`.
unfoldable pub do_update : RunHost → RunHost → RunHost
do_update old new =
    if is_complete old.status then old else record old { status = new.status; log = new.log }

-- One row of the insertion.
unfoldable pub upsert : RunHost → List RunHost → List RunHost
unfolding same_key do_update
upsert new [] = new ∷ []
upsert new (old ∷ rows) =
    if same_key old new then do_update old new ∷ rows else old ∷ upsert new rows

unfoldable pub create_record : List RunHost → List RunHost → List RunHost
unfolding upsert
create_record [] rows = rows
create_record (new ∷ more) rows = create_record more (upsert new rows)

-- `column = value`, of a column that may be null.
abbrev pub column_is : Option Uuid → Option Uuid → Bool
column_is (some a) (some b) = a == b
column_is (some a) none = false
column_is none b = false

-- `sat_sequence IS NULL OR sat_sequence < sequence`
abbrev pub is_newer : ℕ → Option ℕ → Bool
is_newer sequence none = true
is_newer sequence (some old) = ltb old sequence

-- `(sat_sequence IS NULL AND sequence > 0) OR sat_sequence + 1 < sequence`
abbrev pub is_gap : ℕ → Option ℕ → Bool
is_gap sequence none = ltb 0 sequence
is_gap sequence (some old) = ltb (old + 1) sequence

-- What stands in the log for output that was not received. The Go text is raw, so the backslashes
-- are characters of it.
abbrev pub gap_mark : String
gap_mark = "\\n\\u2026\\n"

-- `satAssignmentWithCase`, applied to a row.
unfoldable pub sat_assign : Bool → ℕ → RunHost → RunHost → RunHost
sat_assign response_full sequence update row =
    let appended =
      if is_gap sequence row.sat_sequence
      then concat (concat row.log gap_mark) update.log
      else concat row.log update.log in
    record row {
      sat_sequence = some sequence;
      status = update.status;
      log = if response_full then update.log else appended;
    }

-- `run_id = ? AND inventory_id = ?`
abbrev pub is_target : RunHost → RunHost → Bool
is_target update row = row.run_id == update.run_id && column_is row.inventory_id update.inventory_id

-- The statement of one round of `satUpdateRecord`, on one row, for the sequence of the update.
unfoldable pub sat_update_row : Bool → RunHost → Option ℕ → RunHost → RunHost
unfolding sat_assign
sat_update_row response_full update none row =
    if is_target update row then record row { status = update.status } else row
sat_update_row response_full update (some sequence) row =
    if is_target update row && is_newer sequence row.sat_sequence
    then sat_assign response_full sequence update row
    else row

unfoldable pub sat_update : Bool → RunHost → List RunHost → List RunHost
unfolding sat_update_row
sat_update response_full update rows =
    map (sat_update_row response_full update update.sat_sequence) rows
