-- ===== src/Public/Hosts/Visible.antt =====
-- Which hosts a listing shows, and that their fields have columns.
use playbook_dispatcher.Common.{
  ◌≡◌, ◌∙◌, refl, Bool, true, false, ◌||◌, String, List, [], ◌∷◌, ◌++◌, all, All, has_none,
  contains, if◌then◌else◌, ◌==◌, Result, ok, err, Fault, ◌⊎◌, inl, inr, Bool-cases, arith,
}
use mathlib.Core.Bool.{false≢true}
use mathlib.Core.List.{Perm, perm_middle, Memᴰ}
use mathlib.Core.List.Perm
use playbook_dispatcher.Model.{RunHost}
use playbook_dispatcher.Public.Fields.{Row, run_host_fields}
use playbook_dispatcher.Public.Fields.Known.{IsKnown}
use playbook_dispatcher.Public.Hosts.{
  HostRow, HostsRequest, HostCondition, join_host, join_hosts, all_host_conditions, select_hosts,
  map_host_fields_to_sql, host_columns,
}

-- A row of the table of hosts with the row of its run in the table of runs.
abbrev pub IsJoined : List RunHost → List Row → HostRow → Type 0
IsJoined hosts runs h =
    Memᴰ h.run_host hosts × Memᴰ h.row runs × ((h.row.run.id == h.run_host.run_id) ≡ true)

-- A host with its run, which is of the request's org and, where services are set, of one of them.
abbrev pub IsHostVisible : HostsRequest → List RunHost → List Row → HostRow → Type 0
IsHostVisible request hosts runs h =
    IsJoined hosts runs h
    × ((h.row.run.org_id == request.org_id) ≡ true)
    × ((has_none request.allowed_services ≡ true)
        ⊎ (contains h.row.run.service request.allowed_services ≡ true))

All-append {ℓ κ} :
    {A : Type ℓ} (P : A → Type κ) (xs ys : List A) → All P xs → All P ys → All P (xs ++ ys)
All-append P [] ys p q = q
All-append P (x ∷ xs) ys (p, ps) q = (p, All-append P xs ys ps q)

module _ (hosts : List RunHost) (runs : List Row) where
  join_host-IsJoined :
      (h : RunHost) (rows : List Row)
      → Memᴰ h hosts
      → ((r : Row) → Memᴰ r rows → Memᴰ r runs)
      → All (IsJoined hosts runs) (join_host h rows)
  unfolding join_host
  join_host-IsJoined h [] m inc = tt
  join_host-IsJoined h (r ∷ rows) m inc =
      let rest = join_host-IsJoined h rows m (λ q n. inc q (Memᴰ.tail n)) in
      elim (Bool-cases (r.run.id == h.run_id)) [
        | inl e ↦ rw e ((m, inc r (Memᴰ.head refl), e), rest)
        | inr e ↦ rw e rest
      ]

  pub join_hosts-IsJoined :
      (some_hosts : List RunHost)
      → ((h : RunHost) → Memᴰ h some_hosts → Memᴰ h hosts)
      → All (IsJoined hosts runs) (join_hosts some_hosts runs)
  unfolding join_hosts
  join_hosts-IsJoined [] inc = tt
  join_hosts-IsJoined (h ∷ more) inc =
      All-append (IsJoined hosts runs) (join_host h runs) (join_hosts more runs)
        (join_host-IsJoined h runs (inc h (Memᴰ.head refl)) (λ r m. m))
        (join_hosts-IsJoined more (λ q m. inc q (Memᴰ.tail m)))

  pub conditions-IsHostVisible :
      (request : HostsRequest) (filters : List HostCondition) (h : HostRow)
      → IsJoined hosts runs h
      → all (λ condition. condition h) (all_host_conditions request filters) ≡ true
      → IsHostVisible request hosts runs h
  conditions-IsHostVisible request filters h j c =
      elim (Bool-cases (has_none request.allowed_services)) [
        | inl e ↦ (j, ground arith, inl e)
        | inr e ↦ let k = rw e at c in (j, ground arith, inr (ground arith))
      ]

-- Whether a host meets all conditions of a query.
abbrev pub host_meets : List HostCondition → HostRow → Bool
host_meets conditions h = all (λ condition. condition h) conditions

-- The query keeps the hosts that meet all conditions and leaves out only others.
pub select_hosts_lem :
    (P : HostRow → Type 0) (conditions : List HostCondition) (rows : List HostRow)
    → All P rows
    → All (λ h. P h × (host_meets conditions h ≡ true)) (select_hosts conditions rows)
      × ((left_out : List HostRow) × Perm (select_hosts conditions rows ++ left_out) rows
          × All (λ h. host_meets conditions h ≡ false) left_out)
unfolding select_hosts
select_hosts_lem P conditions [] ps = (tt, ([], Perm.refl [], tt))
select_hosts_lem P conditions (h ∷ hs) (here, ps) =
    let (kept, (left_out, p, others)) = select_hosts_lem P conditions hs ps in
    elim (Bool-cases (host_meets conditions h)) [
      | inl e ↦ rw e (((here, e), kept), (left_out, Perm.cons h p, others))
      | inr e ↦ rw e (
        kept,
        (
          h ∷ left_out,
          Perm.trans (perm_middle (select_hosts conditions hs) left_out) (Perm.cons h p),
          (e, others),
        ),
      )
    ]

abbrev has_column : Result Fault String → Bool
has_column (ok column) = true
has_column (err e) = false

has_column-if :
    (here : Bool) (column : String) (later : Result Fault String)
    → has_column (if here then ok column else later) ≡ (here || has_column later)
has_column-if true column later = refl
has_column-if false column later = refl

-- `mapHostFieldsToSql` knows exactly the fields of hosts.
map_host_fields_to_sql-has_column :
    (field : String) → has_column (map_host_fields_to_sql field) ≡ contains field run_host_fields
unfolding map_host_fields_to_sql
map_host_fields_to_sql-has_column field = simp has_column-if

has_column-eq :
    (r : Result Fault String) → has_column r ≡ true → (column : String) × (r ≡ ok column)
has_column-eq (ok column) h = (column, refl)
has_column-eq (err e) h = absurd (false≢true h)

returns_columns :
    (field : String) (fields : List String) {column : String} {columns : List String}
    → map_host_fields_to_sql field ≡ ok column
    → host_columns fields ≡ ok columns
    → host_columns (field ∷ fields) ≡ ok (column ∷ columns)
unfolding host_columns
returns_columns field fields p q = rw (p, q) refl

pub host_columns-Returns :
    (fields : List String)
    → IsKnown run_host_fields fields
    → (columns : List String) × (host_columns fields ≡ ok columns)
unfolding host_columns
host_columns-Returns [] h = ([], refl)
host_columns-Returns (field ∷ fields) (h, hs) =
    let (column, p) =
      has_column-eq (map_host_fields_to_sql field) (map_host_fields_to_sql-has_column field ∙ h) in
    let (columns, q) = host_columns-Returns fields hs in
    (column ∷ columns, returns_columns field fields p q)
