-- ===== src/Public/Listing/Visible.antt =====
-- Which runs a listing shows, and to whom.
use playbook_dispatcher.Common.{
  ℕ, zero, suc, ◌≡◌, refl, ap, ◌∙◌, Bool, true, false, List, [], ◌∷◌, ◌++◌, length, all, All,
  has_none, contains, ◌==◌, ◌⊎◌, inl, inr, Bool-cases, arith,
}
use mathlib.Core.List.{Perm, perm_middle}
use mathlib.Core.List.Perm
use playbook_dispatcher.Satellite.{sort_slice, insert_sorted}
use playbook_dispatcher.Satellite.Sorting.{insert_sorted-All}
use playbook_dispatcher.Public.Pages.{take, drop}
use playbook_dispatcher.Public.Fields.{Row}
use playbook_dispatcher.Public.Listing.{Request, Condition, all_conditions, select_rows}

-- A run of the request's org and, where services are set, of one of them.
abbrev pub IsVisible : Request → Row → Type 0
IsVisible request row =
    ((row.run.org_id == request.org_id) ≡ true)
    × ((has_none request.allowed_services ≡ true)
        ⊎ (contains row.run.service request.allowed_services ≡ true))

-- Whether a row meets all conditions of a query.
abbrev pub meets : List Condition → Row → Bool
meets conditions row = all (λ condition. condition row) conditions

-- The query keeps the rows that meet all conditions and leaves out only others.
pub select_rows_lem :
    (conditions : List Condition) (rows : List Row)
    → All (λ row. meets conditions row ≡ true) (select_rows conditions rows)
      × ((left_out : List Row) × Perm (select_rows conditions rows ++ left_out) rows
          × All (λ row. meets conditions row ≡ false) left_out)
unfolding select_rows
select_rows_lem conditions [] = (tt, ([], Perm.refl [], tt))
select_rows_lem conditions (row ∷ rows) =
    let (kept, (left_out, p, others)) = select_rows_lem conditions rows in
    elim (Bool-cases (meets conditions row)) [
      | inl h ↦ rw h ((h, kept), (left_out, Perm.cons row p, others))
      | inr h ↦ rw h (
        kept,
        (
          row ∷ left_out,
          Perm.trans (perm_middle (select_rows conditions rows) left_out) (Perm.cons row p),
          (h, others),
        ),
      )
    ]

module _ {ℓ κ} {A : Type ℓ} (P : A → Type κ) where
  pub sort_slice-All : (less : A → A → Bool) (xs : List A) → All P xs → All P (sort_slice less xs)
  unfolding sort_slice
  sort_slice-All less [] h = tt
  sort_slice-All less (x ∷ xs) (p, ps) =
      insert_sorted-All P less x (sort_slice less xs) p (sort_slice-All less xs ps)

  pub drop-All : (n : ℕ) (xs : List A) → All P xs → All P (drop n xs)
  drop-All zero xs h = h
  drop-All (suc n) [] h = tt
  drop-All (suc n) (x ∷ xs) h = drop-All n xs h.1

  pub take-All : (n : ℕ) (xs : List A) → All P xs → All P (take n xs)
  take-All zero xs h = tt
  take-All (suc n) [] h = tt
  take-All (suc n) (x ∷ xs) h = (h.0, take-All n xs h.1)

module _ {ℓ} {A : Type ℓ} (less : A → A → Bool) where
  length-insert_sorted : (x : A) (ys : List A) → length (insert_sorted less x ys) ≡ suc (length ys)
  unfolding insert_sorted
  length-insert_sorted x [] = refl
  length-insert_sorted x (y ∷ ys) = elim (Bool-cases (less y x)) [
    | inl h ↦ rw h (ap suc (length-insert_sorted x ys))
    | inr h ↦ rw h refl
  ]

  pub length-sort_slice : (xs : List A) → length (sort_slice less xs) ≡ length xs
  unfolding sort_slice
  length-sort_slice [] = refl
  length-sort_slice (x ∷ xs) =
      length-insert_sorted x (sort_slice less xs) ∙ ap suc (length-sort_slice xs)

pub All-map {ℓ κ κ'} :
    {A : Type ℓ} {P : A → Type κ} {Q : A → Type κ'} (f : (a : A) → P a → Q a) (xs : List A)
    → All P xs
    → All Q xs
All-map f [] h = tt
All-map f (x ∷ xs) (p, ps) = (f x p, All-map f xs ps)

pub conditions-IsVisible :
    (request : Request) (filters : List Condition) (row : Row)
    → all (λ condition. condition row) (all_conditions request filters) ≡ true
    → IsVisible request row
conditions-IsVisible request filters row h = elim (Bool-cases (has_none request.allowed_services)) [
  | inl e ↦ (ground arith, inl e)
  | inr e ↦ let k = rw e at h in (ground arith, inr (ground arith))
]
