-- ===== src/Common/Texts.antt =====
-- Texts, and dictionaries keyed by texts as association lists (Go's `map[string]V`).
use Prim.Native.Nat.{ℕ, Ordering}
use Prim.Native.Char.{Char, code}
use Prim.Native.String
use Prim.Native.String.{String, compare}
use mathlib.Core.Path.{◌≡◌, refl}
use mathlib.Core.Bool.{Bool, true, false, ◌||◌}
use mathlib.Core.Option.{Option, none, some}
use mathlib.Core.List.{List, [], ◌∷◌}
use native.Mathlib.Omega.{arith}
use text.Mathlib.Text.{◌==◌}
use text.Mathlib.TextEquality.{eq_iff}
use playbook_dispatcher.Common.Tests.{if◌then◌else◌, eqb}

-- `s + t`
abbrev pub concat : String → String → String
concat s t = String.◌++◌ s t

-- `s < t` of Go's byte order.
abbrev pub text_lt : String → String → Bool
text_lt s t = elim (compare s t) [ Ordering.lt ↦ true | _ ↦ false ]

-- `strings.Split` at a character.
abbrev cons_first : Char → List String → List String
cons_first c [] = (String.◌∷◌ c "") ∷ []
cons_first c (x ∷ xs) = String.◌∷◌ c x ∷ xs

unfoldable pub split : ℕ → String → List String
split separator String.[] = "" ∷ []
split separator (String.◌∷◌ c s) =
    let rest = split separator s in if eqb (code c) separator then "" ∷ rest else cons_first c rest

abbrev pub contains : String → List String → Bool
contains k [] = false
contains k (x ∷ xs) = x == k || contains k xs

module _ {ℓ} {V : Type ℓ} where
  unfoldable pub lookup : String → List (String × V) → Option V
  lookup key [] = none
  lookup key ((k, value) ∷ entries) = if k == key then some value else lookup key entries

  unfoldable pub insert : String → V → List (String × V) → List (String × V)
  insert key value [] = (key, value) ∷ []
  insert key value ((k, old) ∷ entries) =
      let rest = insert key value entries in
      if k == key then (key, value) ∷ entries else (k, old) ∷ rest

  -- The keys of a map, in the order in which they were first written.
  abbrev pub keys : List (String × V) → List String
  keys [] = []
  keys ((k, value) ∷ entries) = k ∷ keys entries

  pub lookup-insert :
      (key other : String) (value : V) (entries : List (String × V))
      → lookup other (insert key value entries)
        ≡ (if key == other then some value else lookup other entries)
  unfolding insert lookup
  lookup-insert key other value [] = refl
  lookup-insert key other value ((k, old) ∷ entries) =
      ground (
        arith,
        lookup-insert key other value entries,
        eq_iff k other,
        eq_iff k key,
        eq_iff key other,
      )

  pub contains-keys-insert :
      (key other : String) (value : V) (entries : List (String × V))
      → contains other (keys (insert key value entries))
        ≡ (key == other || contains other (keys entries))
  unfolding insert
  contains-keys-insert key other value [] = refl
  contains-keys-insert key other value ((k, old) ∷ entries) = ground (
    arith,
    contains-keys-insert key other value entries,
    eq_iff k other,
    eq_iff k key,
    eq_iff key other,
  )
