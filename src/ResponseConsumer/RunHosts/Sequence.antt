-- ===== src/ResponseConsumer/RunHosts/Sequence.antt =====
-- What the updates of a Satellite message do to the rows of `run_hosts`.
use text.Mathlib.TextLemmas.{append_assoc, append-nil}
use playbook_dispatcher.Common.{
  given_false, ◌⊎◌, ℕ, ◌≤◌, ◌≡◌, refl, sym, ap, ◌∙◌, Bool, true, false, String, Option, none, some,
  List, [], ◌∷◌, arith, ◌==◌, concat, Each, inl, inr, Bool-cases, ◌&&◌,
}
use playbook_dispatcher.Model.{Uuid, RunHost}
use playbook_dispatcher.ResponseConsumer.RunHosts.{
  is_newer, is_target, sat_assign, sat_update_row, sat_update, gap_mark, is_gap,
}

-- The sequence of a row never gets smaller, and is never lost.
abbrev pub SequenceLe : Option ℕ → Option ℕ → Type 0
SequenceLe none new = Unit
SequenceLe (some a) none = ⊥
SequenceLe (some a) (some b) = a ≤ b

-- What may become of a row, when a Satellite message for the run is handled.
pub record HostStep (response_full : Bool) (run_id : Uuid) (old new : RunHost) : Type 0 where
  pub kept :
      new ≡ record old { sat_sequence = new.sat_sequence; status = new.status; log = new.log }
  pub sequence_grows : SequenceLe old.sat_sequence new.sat_sequence
  pub log_grows : (response_full ≡ true) ⊎ ((t : String) × (new.log ≡ concat old.log t))
  pub others_kept : ((old.run_id == run_id) ≡ true) ⊎ (new ≡ old)

SequenceLe-refl : (a : Option ℕ) → SequenceLe a a
SequenceLe-refl none = tt
SequenceLe-refl (some a) = omega arith

SequenceLe-trans : (a b c : Option ℕ) → SequenceLe a b → SequenceLe b c → SequenceLe a c
SequenceLe-trans none b c h k = tt
SequenceLe-trans (some a) none c h k = absurd h
SequenceLe-trans (some a) (some b) none h k = absurd k
SequenceLe-trans (some a) (some b) (some c) h k = omega arith

module _ (response_full : Bool) (run_id : Uuid) where
  HostStep-refl : (r : RunHost) → HostStep response_full run_id r r
  HostStep-refl r = record {
    kept = refl;
    sequence_grows = SequenceLe-refl r.sat_sequence;
    log_grows = inr ("", sym (append-nil r.log));
    others_kept = inr refl;
  }

  HostStep-trans :
      (a b c : RunHost)
      → HostStep response_full run_id a b
      → HostStep response_full run_id b c
      → HostStep response_full run_id a c
  HostStep-trans a b c h k = record {
    kept = ground (arith, h.kept, k.kept);
    sequence_grows =
        SequenceLe-trans a.sat_sequence b.sat_sequence c.sat_sequence h.sequence_grows
          k.sequence_grows;
    log_grows = elim h.log_grows [
      | inl full ↦ inl full
      | inr (t, p) ↦ elim k.log_grows [
        | inl full ↦ inl full
        | inr (u, q) ↦ inr (concat t u, q ∙ ap (λ s. concat s u) p ∙ append_assoc a.log t u)
      ]
    ];
    others_kept = elim k.others_kept [
      | inl mine ↦ inl (sym (ap (λ r. r.run_id == run_id) h.kept) ∙ mine)
      | inr same ↦ elim h.others_kept [ inl mine ↦ inl mine | inr same_too ↦ inr (same ∙ same_too) ]
    ];
  }

  log_of_assign :
      (sequence : ℕ) (update row : RunHost)
      → response_full ≡ false
      → (t : String) × ((sat_assign response_full sequence update row).log ≡ concat row.log t)
  unfolding sat_assign
  log_of_assign sequence update row f = elim (Bool-cases (is_gap sequence row.sat_sequence)) [
    | inl gap ↦ (concat gap_mark update.log, rw (f, gap) (append_assoc row.log gap_mark update.log))
    | inr none_missing ↦ (update.log, rw (f, none_missing))
  ]

  -- The row of another run is not the target.
  other_is_no_target :
      (update row : RunHost)
      → update.run_id ≡ run_id
      → (row.run_id == run_id) ≡ false
      → is_target update row ≡ false
  other_is_no_target update row e h = rw (e, h)

  assigned :
      (n : ℕ) (update row : RunHost)
      → let new = sat_assign response_full n update row in
        new ≡ record row { sat_sequence = new.sat_sequence; status = new.status; log = new.log }
  unfolding sat_assign
  assigned n update row = refl

  sequence_of_assign :
      (n : ℕ) (update row : RunHost)
      → is_newer n row.sat_sequence ≡ true
      → SequenceLe row.sat_sequence (sat_assign response_full n update row).sat_sequence
  unfolding sat_assign
  sequence_of_assign n update row h = of_newer row.sat_sequence h
    where
      of_newer : (old : Option ℕ) → is_newer n old ≡ true → SequenceLe old (some n)
      of_newer none h = tt
      of_newer (some a) h = ground arith

  sat_update_row-HostStep :
      (update row : RunHost) (sequence : Option ℕ)
      → update.run_id ≡ run_id
      → HostStep response_full run_id row (sat_update_row response_full update sequence row)
  unfolding sat_update_row
  sat_update_row-HostStep update row none e = elim (Bool-cases (is_target update row)) [
    | inr other ↦ rw other (HostStep-refl row)
    | inl target ↦ rw target (record {
      kept = refl;
      sequence_grows = SequenceLe-refl row.sat_sequence;
      log_grows = inr ("", sym (append-nil row.log));
      others_kept =
          given_false (row.run_id == run_id) (λ h. cc (target, other_is_no_target update row e h));
    })
  ]
  sat_update_row-HostStep update row (some n) e =
      elim (Bool-cases (is_target update row && is_newer n row.sat_sequence)) [
        | inr other ↦ rw other (HostStep-refl row)
        | inl newer ↦ rw newer (record {
          kept = assigned n update row;
          sequence_grows = sequence_of_assign n update row (ground arith);
          log_grows = given_false response_full (log_of_assign n update row);
          others_kept =
              given_false (row.run_id == run_id)
                (λ h. ground (arith, newer, other_is_no_target update row e h));
        })
      ]

  pub sat_update-HostStep :
      (update : RunHost) (rows : List RunHost)
      → update.run_id ≡ run_id
      → Each (HostStep response_full run_id) rows (sat_update response_full update rows)
  unfolding sat_update
  sat_update-HostStep update [] e = tt
  sat_update-HostStep update (r ∷ rs) e =
      (sat_update_row-HostStep update r update.sat_sequence e, sat_update-HostStep update rs e)

  pub Each-HostStep-refl : (rows : List RunHost) → Each (HostStep response_full run_id) rows rows
  Each-HostStep-refl [] = tt
  Each-HostStep-refl (r ∷ rs) = (HostStep-refl r, Each-HostStep-refl rs)

  pub Each-HostStep-trans :
      (xs ys zs : List RunHost)
      → Each (HostStep response_full run_id) xs ys
      → Each (HostStep response_full run_id) ys zs
      → Each (HostStep response_full run_id) xs zs
  Each-HostStep-trans [] [] [] h k = tt
  Each-HostStep-trans [] [] (c ∷ zs) h k = absurd k
  Each-HostStep-trans [] (b ∷ ys) zs h k = absurd h
  Each-HostStep-trans (a ∷ xs) [] zs h k = absurd h
  Each-HostStep-trans (a ∷ xs) (b ∷ ys) [] h k = absurd k
  Each-HostStep-trans (a ∷ xs) (b ∷ ys) (c ∷ zs) (h, hs) (k, ks) =
      (HostStep-trans a b c h k, Each-HostStep-trans xs ys zs hs ks)
