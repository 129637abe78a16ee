-- ===== src/Public/Fields/Known.antt =====
-- Fields that are accepted are fields that are known.
use playbook_dispatcher.Common.{
  ◌≡◌, ◌∙◌, refl, Bool, true, false, ◌||◌, if◌then◌else◌, String, Option, none, some, List, [], ◌∷◌,
  ◌++◌, All, contains, lookup, split, Result, ok, err, err≢ok, ok_inj, >>=-eq-ok, Fault, inl, inr,
  Bool-cases,
}
use mathlib.Core.Bool.{false≢true}
use playbook_dispatcher.Public.Fields.{
  Row, ApiRun, empty_run, run_fields, default_run_fields, parse_names, parse_values, parse_selected,
  parse_fields, set_field, set_fields, db_run_to_api_run,
}

abbrev pub IsKnown : List String → List String → Type 0
IsKnown known = All (λ field. contains field known ≡ true)

append-IsKnown :
    (known xs ys : List String) → IsKnown known xs → IsKnown known ys → IsKnown known (xs ++ ys)
append-IsKnown known [] ys p q = q
append-IsKnown known (x ∷ xs) ys (p, ps) q = (p, append-IsKnown known xs ys ps q)

parse_names-IsKnown :
    (known fields : List String) {parsed : List String}
    → parse_names known fields ≡ ok parsed
    → IsKnown known parsed
unfolding parse_names
parse_names-IsKnown known [] e = rw (← ok_inj e) tt
parse_names-IsKnown known (field ∷ fields) e = elim (Bool-cases (contains field known)) [
  | inr h ↦ absurd (err≢ok (rw h at e))
  | inl h ↦
      let (rest, p, q) = >>=-eq-ok (parse_names known fields) _ (rw h at e) in
      rw (← ok_inj q) (h, parse_names-IsKnown known fields p)
]

parse_values-IsKnown :
    (known values : List String) {parsed : List String}
    → parse_values known values ≡ ok parsed
    → IsKnown known parsed
unfolding parse_values
parse_values-IsKnown known [] e = rw (← ok_inj e) tt
parse_values-IsKnown known (value ∷ values) e =
    let (first, p, q) = >>=-eq-ok (parse_names known (split 44 value)) _ e in
    let (rest, r, s) = >>=-eq-ok (parse_values known values) _ q in
    rw (← ok_inj s) (
      append-IsKnown known first rest (parse_names-IsKnown known (split 44 value) p)
        (parse_values-IsKnown known values r))

selected-IsKnown :
    (known defaults : List String) (selected : Option (List String)) {parsed : List String}
    → IsKnown known defaults
    → parse_selected known defaults selected ≡ ok parsed
    → IsKnown known parsed
selected-IsKnown known defaults none d e = rw (← ok_inj e) d
selected-IsKnown known defaults (some values) d e = parse_values-IsKnown known values e

-- `parseFields` accepts no field that is not known.
pub parse_fields-IsKnown :
    (input : List (String × List String)) (key : String) (known defaults : List String)
    {parsed : List String}
    → IsKnown known defaults
    → parse_fields input key known defaults ≡ ok parsed
    → IsKnown known parsed
unfolding parse_fields
parse_fields-IsKnown input key known defaults d e =
    selected-IsKnown known defaults (lookup key input) d e

abbrev succeeds : Result Fault ApiRun → Bool
succeeds (ok run) = true
succeeds (err e) = false

succeeds-eq : (r : Result Fault ApiRun) → succeeds r ≡ true → (next : ApiRun) × (r ≡ ok next)
succeeds-eq (ok run) h = (run, refl)
succeeds-eq (err e) h = absurd (false≢true h)

succeeds-if :
    (here : Bool) (run : ApiRun) (later : Result Fault ApiRun)
    → succeeds (if here then ok run else later) ≡ (here || succeeds later)
succeeds-if true run later = refl
succeeds-if false run later = refl

-- A field is handled exactly if it is one of the known ones.
set_field-succeeds :
    (r : Row) (field : String) (run : ApiRun)
    → succeeds (set_field r field run) ≡ contains field run_fields
unfolding set_field
set_field-succeeds r field run = simp succeeds-if

set_field-known :
    (r : Row) (field : String) (run : ApiRun)
    → contains field run_fields ≡ true
    → (next : ApiRun) × (set_field r field run ≡ ok next)
set_field-known r field run h =
    succeeds-eq (set_field r field run) (set_field-succeeds r field run ∙ h)

set_fields-known :
    (r : Row) (fields : List String) (run : ApiRun)
    → IsKnown run_fields fields
    → (next : ApiRun) × (set_fields r fields run ≡ ok next)
unfolding set_fields
set_fields-known r [] run h = (run, refl)
set_fields-known r (field ∷ fields) run (h, hs) =
    let (next, e) = set_field-known r field run h in rw e (set_fields-known r fields next hs)

-- A run is converted for every list of fields that `parseFields` accepts, without a panic.
pub db_run_to_api_run-known :
    (r : Row) (input : List (String × List String)) (fields : List String)
    → parse_fields input "data" run_fields default_run_fields ≡ ok fields
    → (run : ApiRun) × (db_run_to_api_run r fields ≡ ok run)
unfolding db_run_to_api_run
db_run_to_api_run-known r input fields e = set_fields-known r fields empty_run (
    parse_fields-IsKnown input "data" run_fields default_run_fields
      (refl, (refl, (refl, (refl, (refl, (refl, (refl, tt))))))) e)
