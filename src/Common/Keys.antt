-- ===== src/Common/Keys.antt =====
-- The keys of a map: none stands twice, and what is asked of all values can be asked of all keys.
use mathlib.Core.Path.{◌≡◌, refl, sym, ◌∙◌}
use mathlib.Core.Logic.{inl, inr}
use mathlib.Core.Bool.{Bool, true, false}
use mathlib.Core.Option.{Option, none, some}
use mathlib.Core.List.{List, [], ◌∷◌}
use Prim.Native.String.{String}
use native.Mathlib.Omega.{arith}
use text.Mathlib.TextEquality.{eq_iff}
use text.Mathlib.TextPositions.{eq_refl}
use playbook_dispatcher.Common.Tests.{is_some, Bool-cases}
use playbook_dispatcher.Common.Lists.{any}
use playbook_dispatcher.Common.Texts.{contains, lookup, insert, keys, contains-keys-insert}

-- No text stands twice.
abbrev pub IsDistinct : List String → Type 0
IsDistinct [] = Unit
IsDistinct (x ∷ xs) = (contains x xs ≡ false) × IsDistinct xs

-- `p` holds of the value, if there is one.
abbrev pub holds {ℓ} : {V : Type ℓ} → (V → Bool) → Option V → Bool
holds p none = false
holds p (some v) = p v

module _ {ℓ} {V : Type ℓ} where
  pub insert-IsDistinct :
      (k : String) (v : V) (m : List (String × V))
      → IsDistinct (keys m)
      → IsDistinct (keys (insert k v m))
  unfolding insert
  insert-IsDistinct k v [] d = (refl, tt)
  insert-IsDistinct k v ((j, w) ∷ m) d =
      ground (arith, contains-keys-insert k j v m, insert-IsDistinct k v m, eq_iff j k, eq_iff k j)

  pub contains-keys :
      (k : String) (m : List (String × V)) → contains k (keys m) ≡ is_some (lookup k m)
  unfolding lookup
  contains-keys k [] = refl
  contains-keys k ((j, w) ∷ m) = ground (arith, contains-keys k m)

pub any-ext :
    (q r : String → Bool) (xs : List String)
    → ((k : String) → contains k xs ≡ true → q k ≡ r k)
    → any q xs ≡ any r xs
any-ext q r [] h = refl
any-ext q r (x ∷ xs) h =
    ground (arith, h x (ground (arith, eq_refl x)), any-ext q r xs (λ k c. h k (ground arith)))

any-witness :
    (q : String → Bool) (xs : List String)
    → any q xs ≡ true
    → (k : String) × (contains k xs ≡ true) × (q k ≡ true)
any-witness q [] h = cc
any-witness q (x ∷ xs) h = elim (Bool-cases (q x)) [
  | inl here ↦ (x, ground (arith, eq_refl x), here)
  | inr there ↦ let (k, c, e) = any-witness q xs (ground arith) in (k, ground arith, e)
]

any_of_contains :
    (q : String → Bool) (k : String) (xs : List String)
    → contains k xs ≡ true
    → q k ≡ true
    → any q xs ≡ true
any_of_contains q k [] c e = cc
any_of_contains q k (x ∷ xs) c e = ground (arith, eq_iff x k, any_of_contains q k xs)

any_le :
    (q : String → Bool) (xs ys : List String)
    → ((k : String) → contains k xs ≡ true → contains k ys ≡ true)
    → any q xs ≡ true
    → any q ys ≡ true
any_le q xs ys h t = let (k, c, e) = any-witness q xs t in any_of_contains q k ys (h k c) e

-- `any` sees only which texts a list holds.
pub any-contains :
    (q : String → Bool) (xs ys : List String)
    → ((k : String) → contains k xs ≡ contains k ys)
    → any q xs ≡ any q ys
any-contains q xs ys h =
    ground (arith, any_le q xs ys (λ k c. sym (h k) ∙ c), any_le q ys xs (λ k c. h k ∙ c))
