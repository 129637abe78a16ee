-- ===== src/Satellite/Sorting.antt =====
-- What `sort_slice` does, and the order in which `sort_sat_events` leaves the events.
use playbook_dispatcher.Common.{
  ℕ, ◌≤◌, ◌≡◌, refl, Bool, true, false, ◌||◌, Option, none, some, List, [], ◌∷◌, arith, inl, inr,
  Bool-cases, All, String, contains, text_lt, ◌==◌,
}
use mathlib.Core.List.{Perm}
use mathlib.Core.List.Perm
use playbook_dispatcher.Model.{SatEvent}
use playbook_dispatcher.Satellite.{sort_slice, insert_sorted, sort_sat_events, sequence_less}

module _ {ℓ κ} {A : Type ℓ} (P : A → Type κ) (less : A → A → Bool) where
  pub insert_sorted-All : (x : A) (ys : List A) → P x → All P ys → All P (insert_sorted less x ys)
  unfolding insert_sorted
  insert_sorted-All x [] p ps = (p, tt)
  insert_sorted-All x (y ∷ ys) p (q, qs) = elim (Bool-cases (less y x)) [
    | inl h ↦ rw h (q, insert_sorted-All x ys p qs)
    | inr h ↦ rw h (p, (q, qs))
  ]

-- No item is less than one that stands before it.
module _ {ℓ} {A : Type ℓ} (less : A → A → Bool) where
  abbrev pub IsSorted : List A → Type 0
  IsSorted [] = Unit
  IsSorted (x ∷ xs) = All (λ y. less y x ≡ false) xs × IsSorted xs

  pub insert_sorted-perm : (x : A) (ys : List A) → Perm (insert_sorted less x ys) (x ∷ ys)
  unfolding insert_sorted
  insert_sorted-perm x [] = Perm.refl (x ∷ [])
  insert_sorted-perm x (y ∷ ys) = elim (Bool-cases (less y x)) [
    | inl h ↦ rw h (Perm.trans (Perm.cons y (insert_sorted-perm x ys)) (Perm.swap x y ys))
    | inr h ↦ rw h (Perm.refl (x ∷ y ∷ ys))
  ]

  pub sort_slice-perm : (xs : List A) → Perm (sort_slice less xs) xs
  unfolding sort_slice
  sort_slice-perm [] = Perm.refl []
  sort_slice-perm (x ∷ xs) =
      Perm.trans (insert_sorted-perm x (sort_slice less xs)) (Perm.cons x (sort_slice-perm xs))

-- Sorting by a strict weak order.
module _ {ℓ} {A : Type ℓ} (less : A → A → Bool)
    (asym : (a b : A) → less a b ≡ true → less b a ≡ false)
    (neg_trans : (a b c : A) → less b a ≡ false → less c b ≡ false → less c a ≡ false) where
  All-not-less :
      (x y : A) (ys : List A)
      → less y x ≡ false
      → All (λ z. less z y ≡ false) ys
      → All (λ z. less z x ≡ false) ys
  All-not-less x y [] h ps = tt
  All-not-less x y (z ∷ ys) h (p, ps) = (neg_trans x y z h p, All-not-less x y ys h ps)

  insert_sorted-IsSorted :
      (x : A) (ys : List A) → IsSorted less ys → IsSorted less (insert_sorted less x ys)
  unfolding insert_sorted
  insert_sorted-IsSorted x [] s = (tt, tt)
  insert_sorted-IsSorted x (y ∷ ys) (p, s) = elim (Bool-cases (less y x)) [
    | inl h ↦ rw h (
      insert_sorted-All (λ z. less z y ≡ false) less x ys (asym y x h) p,
      insert_sorted-IsSorted x ys s,
    )
    | inr h ↦ rw h ((h, All-not-less x y ys h p), (p, s))
  ]

  pub sort_slice-IsSorted : (xs : List A) → IsSorted less (sort_slice less xs)
  unfolding sort_slice
  sort_slice-IsSorted [] = tt
  sort_slice-IsSorted (x ∷ xs) =
      insert_sorted-IsSorted x (sort_slice less xs) (sort_slice-IsSorted xs)

sequence_less_asym : (a b : Option ℕ) → sequence_less a b ≡ true → sequence_less b a ≡ false
sequence_less_asym a b h = ground arith

sequence_less_neg_trans :
    (a b c : Option ℕ)
    → sequence_less b a ≡ false
    → sequence_less c b ≡ false
    → sequence_less c a ≡ false
sequence_less_neg_trans a b c h k = ground arith

-- `a` may stand before `b`: `b` has no sequence, or both have one and that of `a` is not greater.
abbrev pub MayPrecede : Option ℕ → Option ℕ → Type 0
MayPrecede a none = Unit
MayPrecede none (some b) = ⊥
MayPrecede (some a) (some b) = a ≤ b

-- Every event may stand before all that follow it.
abbrev pub InSequence : List SatEvent → Type 0
InSequence [] = Unit
InSequence (e ∷ es) = All (λ later. MayPrecede e.sequence later.sequence) es × InSequence es

MayPrecede-of_not_less : (a b : Option ℕ) → sequence_less b a ≡ false → MayPrecede a b
MayPrecede-of_not_less a none h = tt
MayPrecede-of_not_less none (some b) h = cc
MayPrecede-of_not_less (some a) (some b) h = ground arith

All-MayPrecede :
    (e : SatEvent) (es : List SatEvent)
    → All (λ later. sequence_less later.sequence e.sequence ≡ false) es
    → All (λ later. MayPrecede e.sequence later.sequence) es
All-MayPrecede e [] ps = tt
All-MayPrecede e (x ∷ es) (p, ps) =
    (MayPrecede-of_not_less e.sequence x.sequence p, All-MayPrecede e es ps)

InSequence-of_sorted :
    (es : List SatEvent) → IsSorted (λ a b. sequence_less a.sequence b.sequence) es → InSequence es
InSequence-of_sorted [] s = tt
InSequence-of_sorted (e ∷ es) (p, s) = (All-MayPrecede e es p, InSequence-of_sorted es s)

-- `SortSatEvents` rearranges the events: none is lost, added or changed. After it the sequences
-- ascend, and the events without a sequence stand last.
pub sort_sat_events_lem :
    (events : List SatEvent)
    → Perm (sort_sat_events events) events × InSequence (sort_sat_events events)
unfolding sort_sat_events
sort_sat_events_lem events = (
  sort_slice-perm (λ a b. sequence_less a.sequence b.sequence) events,
  InSequence-of_sorted _ (
      sort_slice-IsSorted (λ a b. sequence_less a.sequence b.sequence)
        (λ a b. sequence_less_asym a.sequence b.sequence)
        (λ a b c. sequence_less_neg_trans a.sequence b.sequence c.sequence) events),
)

pub contains-insert_sorted :
    (k x : String) (ys : List String)
    → contains k (insert_sorted text_lt x ys) ≡ (x == k || contains k ys)
unfolding insert_sorted
contains-insert_sorted k x [] = refl
contains-insert_sorted k x (y ∷ ys) = ground (arith, contains-insert_sorted k x ys)

pub contains-sort_slice :
    (k : String) (xs : List String) → contains k (sort_slice text_lt xs) ≡ contains k xs
unfolding sort_slice
contains-sort_slice k [] = refl
contains-sort_slice k (x ∷ xs) =
    ground (arith, contains-insert_sorted k x (sort_slice text_lt xs), contains-sort_slice k xs)
