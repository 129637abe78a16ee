-- ===== src/Public/Pages/Parts.antt =====
-- Parts of a table: what a page shows, and the rest.
use playbook_dispatcher.Common.{ℕ, List, ◌++◌}
use mathlib.Core.List.{Perm, append_assoc, perm_append_comm}
use mathlib.Core.List.Perm
use playbook_dispatcher.Public.Pages.{take, drop, page}
use playbook_dispatcher.Public.Pages.Cover.{take-append-drop}

-- Some rows of a table are shown: with the others they are all of its rows, each as often as it stands
-- in it.
abbrev pub IsPart {ℓ} : {A : Type ℓ} → List A → List A → Type ℓ
IsPart {A = A} shown rows = (others : List A) × Perm (shown ++ others) rows

module _ {ℓ} {A : Type ℓ} where
  page-perm :
      (limit offset : ℕ) (xs : List A)
      → Perm (page limit offset xs ++ (drop limit (drop offset xs) ++ take offset xs)) xs
  page-perm limit offset xs =
      rw
        (
          ← append_assoc (page limit offset xs) (drop limit (drop offset xs)) (take offset xs),
          take-append-drop limit (drop offset xs),
        )
        (Perm.trans (perm_append_comm (drop offset xs) (take offset xs))
          (rw (take-append-drop offset xs) (Perm.refl xs)))

  -- A page of a part is a part.
  pub page-IsPart :
      (limit offset : ℕ) (xs hidden rows : List A)
      → Perm (xs ++ hidden) rows
      → IsPart (page limit offset xs) rows
  page-IsPart limit offset xs hidden rows p =
      let others = drop limit (drop offset xs) ++ take offset xs in
      (
        others ++ hidden,
        rw (← append_assoc (page limit offset xs) others hidden)
            (Perm.trans (Perm.append_right hidden (page-perm limit offset xs)) p),
      )
