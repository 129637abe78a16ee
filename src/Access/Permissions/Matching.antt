-- ===== src/Access/Permissions/Matching.antt =====
-- Which permission texts grant what is required.
use Prim.Native.Char.{code}
use text.Mathlib.TextLemmas.{cons-append, nil-append}
use mathlib.Core.Bool.{false≢true}
use playbook_dispatcher.Common.{
  ◌≡◌, refl, Bool, true, false, ◌&&◌, ◌||◌, not, String, some, List, [], ◌∷◌, eqb, ◌==◌, concat,
  any, has_none, inl, inr, Bool-cases, arith,
}
use playbook_dispatcher.Access.Permissions.{
  Access, RequiredPermission, until_colon, colon_field, is_ascii, find_submatch, last_field, grants,
  filter_permissions,
}

-- A requirement is met by some permission of the list exactly when the filter leaves one.
pub filter_permissions_lem :
    (values : List Access) (required : RequiredPermission)
    → has_none (filter_permissions values required) ≡ not (any (grants required) values)
unfolding filter_permissions
filter_permissions_lem [] required = refl
filter_permissions_lem (value ∷ values) required = elim (Bool-cases (grants required value)) [
  | inl h ↦ rw h refl
  | inr h ↦ rw h (filter_permissions_lem values required)
]

unfoldable pub no_colon : String → Bool
no_colon String.[] = true
no_colon (String.◌∷◌ c s) = not (eqb (code c) 58) && no_colon s

unfoldable pub is_field : String → Bool
is_field s = no_colon s && is_ascii s && not (s == "")

abbrev pub join : String → String → String → String
join a r v = concat a (String.◌∷◌ ":" (concat r (String.◌∷◌ ":" v)))

until_colon-append :
    (s rest : String)
    → no_colon s ≡ true
    → until_colon (concat s (String.◌∷◌ ":" rest)) ≡ some (s, rest)
unfolding until_colon no_colon
until_colon-append String.[] rest h = rw nil-append refl
until_colon-append (String.◌∷◌ c s) rest h =
    let other : eqb (code c) 58 ≡ false = ground arith in
    let later : no_colon s ≡ true = ground arith in
    rw (cons-append c s (String.◌∷◌ ":" rest), other, until_colon-append s rest later) refl

colon_field-append :
    (s rest : String)
    → is_field s ≡ true
    → colon_field (concat s (String.◌∷◌ ":" rest)) ≡ some (s, rest)
unfolding colon_field is_field no_colon is_ascii
colon_field-append String.[] rest h = absurd (false≢true h)
colon_field-append (String.◌∷◌ c s) rest h =
    let later : no_colon s ≡ true = ground arith in
    rw (cons-append c s (String.◌∷◌ ":" rest), until_colon-append s rest later) refl

is_ascii-append : (s t : String) → is_ascii (concat s t) ≡ is_ascii s && is_ascii t
unfolding is_ascii
is_ascii-append String.[] t = rw nil-append refl
is_ascii-append (String.◌∷◌ c s) t = rw (cons-append c s t, is_ascii-append s t) (ground arith)

last_field_of :
    (v : String) (a r : String)
    → is_field v ≡ true
    → last_field a r v
      ≡ some (record { parsed_application = a; parsed_resource = r; parsed_verb = v })
unfolding is_field no_colon is_ascii
last_field_of String.[] a r h = absurd (false≢true h)
last_field_of (String.◌∷◌ c s) a r h = refl

is_ascii-join :
    (a r v : String)
    → is_field a ≡ true
    → is_field r ≡ true
    → is_field v ≡ true
    → is_ascii (join a r v) ≡ true
unfolding is_field is_ascii
is_ascii-join a r v ha hr hv =
    rw
      (
        is_ascii-append a (String.◌∷◌ ":" (concat r (String.◌∷◌ ":" v))),
        is_ascii-append r (String.◌∷◌ ":" v),
      )
      (ground arith)

-- Three fields without colons that are joined by colons are read back.
find_submatch-join :
    (a r v : String)
    → is_field a ≡ true
    → is_field r ≡ true
    → is_field v ≡ true
    → find_submatch (join a r v)
      ≡ some (record { parsed_application = a; parsed_resource = r; parsed_verb = v })
unfolding find_submatch
find_submatch-join a r v ha hr hv =
    rw (is_ascii-join a r v ha hr hv, colon_field-append a _ ha, colon_field-append r v hr)
      (last_field_of v a r hv)

-- A permission of three fields without colons grants what is required exactly where its application
-- is the required one, and its resource and its verb are the required ones or the wildcard.
pub grants-join :
    (required : RequiredPermission) (value : Access) (a r v : String)
    → is_field a ≡ true
    → is_field r ≡ true
    → is_field v ≡ true
    → value.permission ≡ join a r v
    → grants required value ≡ (
        required.application == a
        && (r == required.resource_type || r == "*")
        && (v == required.verb || v == "*"))
grants-join required value a r v ha hr hv e = rw (e, find_submatch-join a r v ha hr hv) refl
