-- ===== src/Diagnostics/Pipeline/Rows.antt =====
-- What a write on one row of the diagnostics keeps
-- (backend/src/scans/diagnostic-orchestrator.service.ts).
use sistema_de_gestion_de_po.Common.{
  ℕ, suc, ◌≤◌, ◌<◌, ◌≡◌, refl, sym, ap, subst, ◌∙◌, ◌⊎◌, inl, inr, true, false, not, none, some,
  List, ◌∷◌, count_if, find, find-none, ◌==◌, is_some, or_else, same_number, arith, Bool-cases,
  Option-cases, opt_map, if◌then◌else◌, min, length,
}
use sistema_de_gestion_de_po.Common.Keyed.{
  row, update, row-update, row-cons, Below, update-Below, count-update-le,
}
use sistema_de_gestion_de_po.Scans.{Table}
use sistema_de_gestion_de_po.Domain.{AssetType}
use sistema_de_gestion_de_po.Diagnostics.{BatchStatus, stages_for_profile}
use sistema_de_gestion_de_po.Diagnostics.Pipeline.{
  Batch, State, batch_id, is_unfinished, occupies_asset,
}

-- The current stage is one of the diagnostic's, and it has a date of its end exactly when it ended.
abbrev pub BatchIsValid : Batch → Type 0
BatchIsValid b =
    (1 ≤ b.current_stage)
    × (b.current_stage ≤ b.total_stages)
    × (is_some b.finished_at ≡ not (is_unfinished b.status))

pub record IsValid (s : State) : Type 0 where
  pub ordered : Below batch_id s.next_id s.batches
  -- of an asset at most one diagnostic is unfinished
  pub single : (organization asset : ℕ) → count_if (occupies_asset organization asset) s.batches ≤ 1
  pub each : (id : ℕ) (b : Batch) → row batch_id id s.batches ≡ some b → BatchIsValid b

pub record Evolves (b b' : Batch) : Type 0 where
  pub same_organization : b'.organization ≡ b.organization
  pub same_asset : b'.asset ≡ b.asset
  pub same_profile : b'.profile ≡ b.profile
  pub same_total : b'.total_stages ≡ b.total_stages
  pub forward : b.current_stage ≤ b'.current_stage
  -- an ended diagnostic is only written to be cancelled
  pub ended : is_unfinished b.status ≡ false → (b' ≡ b) ⊎ (b'.status ≡ BatchStatus.cancelled)

pub Evolves-refl : (b : Batch) → Evolves b b
Evolves-refl b = record {
  same_organization = refl;
  same_asset = refl;
  same_profile = refl;
  same_total = refl;
  forward = omega arith;
  ended = λ e. inl refl;
}

pub Evolves-trans : (b c e : Batch) → Evolves b c → Evolves c e → Evolves b e
Evolves-trans b c e h k = record {
  same_organization = k.same_organization ∙ h.same_organization;
  same_asset = k.same_asset ∙ h.same_asset;
  same_profile = k.same_profile ∙ h.same_profile;
  same_total = k.same_total ∙ h.same_total;
  forward = omega (arith, h.forward, k.forward);
  ended = λ over. ended_trans b c e (h.ended over) k.ended over;
}
  where
    ended_trans :
        (b c e : Batch)
        → (c ≡ b) ⊎ (c.status ≡ BatchStatus.cancelled)
        → (is_unfinished c.status ≡ false → (e ≡ c) ⊎ (e.status ≡ BatchStatus.cancelled))
        → is_unfinished b.status ≡ false
        → (e ≡ b) ⊎ (e.status ≡ BatchStatus.cancelled)
    ended_trans b c e (inl same) h over = elim (h (ground (arith, same, over))) [
      | inl again ↦ inl (again ∙ same)
      | inr gone ↦ inr gone
    ]
    ended_trans b c e (inr gone) h over = elim (h (ground (arith, gone))) [
      | inl again ↦ inr (ground (arith, again, gone))
      | inr gone' ↦ inr gone'
    ]

-- The abstract view of a diagnostic: the stage that it is in, or how it ended.
pub data Phase : Type 0 where
  running : (stage : ℕ) → Phase
  finished gone : Phase

abbrev pub phase : Batch → Phase
phase b = elim b.status [
  | BatchStatus.pending ↦ running b.current_stage
  | BatchStatus.in_progress ↦ running b.current_stage
  | BatchStatus.completed ↦ finished
  | BatchStatus.failed ↦ finished
  | BatchStatus.cancelled ↦ gone
]

-- What asks for a step: the pipeline's own advance, a user's cancellation, or anything else, which
-- is a request for another diagnostic and the work of the queue.
pub data Cause : Type 0 where
  advance cancellation elsewhere : Cause

-- What a diagnostic may do in one step, `last` being its last stage: it goes through the stages one
-- by one, finishes from the last only, and is cancelled only when that is asked for. Completed,
-- failed and cancelled are ends, but a cancellation overwrites any of them.
pub data Move (last : ℕ) : Cause → Phase → Phase → Type 0 where
  stays : (c : Cause) (p : Phase) → Move last c p p
  enters : (n : ℕ) → n < last → Move last advance (running n) (running (suc n))
  finishes : (n : ℕ) → last ≤ n → Move last advance (running n) finished
  is_cancelled : (n : ℕ) → Move last cancellation (running n) gone
  is_overwritten : Move last cancellation finished gone

-- The last stage: the last of those it was started with, or of those that the type which its asset
-- has now has got, if these are fewer.
abbrev pub last_stage : (ℕ → AssetType) → Batch → ℕ
last_stage type_of b = min b.total_stages (length (stages_for_profile b.profile (type_of b.asset)))

pub cancels : {last : ℕ} (p : Phase) → Move last cancellation p gone
cancels (running n) = is_cancelled n
cancels finished = is_overwritten
cancels gone = stays cancellation gone

pub some_batch : {b c : Batch} → some b ≡ some c → b ≡ c
some_batch {b} e = ap (λ o. or_else o b) e

module _ (type_of : ℕ → AssetType) (cause : Cause) where
  pub record Moves (b b' : Batch) : Type 0 where
    pub evolves : Evolves b b'
    pub move : Move (last_stage type_of b) cause (phase b) (phase b')

  Moves-refl : (b : Batch) → Moves b b
  Moves-refl b = record { evolves = Evolves-refl b; move = stays cause (phase b) }

  pub record Good (s s' : State) : Type 0 where
    pub valid : IsValid s'
    pub preserves :
        (id : ℕ) (b : Batch)
        → row batch_id id s.batches ≡ some b
        → (b' : Batch) × (row batch_id id s'.batches ≡ some b') × Moves b b'

  pub same-Good :
      (s s' : State) → s'.batches ≡ s.batches → s'.next_id ≡ s.next_id → IsValid s → Good s s'
  same-Good s s' e n v = record {
    valid = record {
      ordered = rw (e, n) v.ordered;
      single = λ o a. rw e (v.single o a);
      each = λ i b f. v.each i b (rw⁻¹ e f);
    };
    preserves = λ i b f. (b, rw e f, Moves-refl b);
  }

  -- One batch is written: it stays valid, evolves, and does not become unfinished again.
  abbrev pub Writes : (Batch → Batch) → Type 0
  Writes f =
      (b : Batch)
      → ((f b).id ≡ b.id)
        × ((o a : ℕ) → occupies_asset o a (f b) ≡ true → occupies_asset o a b ≡ true)

  update-row :
      (s s' : State) (id i : ℕ) (f : Batch → Batch)
      → Writes f
      → s'.batches ≡ update batch_id id f s.batches
      → row batch_id i s'.batches
        ≡ (if i == id then opt_map f (row batch_id i s.batches) else row batch_id i s.batches)
  update-row s s' id i f w e = rw e (row-update batch_id i id f s.batches (λ b. (w b).0))

  abbrev pub Keeps : State → ℕ → (Batch → Batch) → Type 0
  Keeps s id f =
      (b : Batch)
      → row batch_id id s.batches ≡ some b
      → BatchIsValid b
      → BatchIsValid (f b) × Moves b (f b)

  update-each :
      (s s' : State) (id : ℕ) (f : Batch → Batch)
      → Writes f
      → Keeps s id f
      → s'.batches ≡ update batch_id id f s.batches
      → IsValid s
      → (i : ℕ) (b : Batch) → row batch_id i s.batches ≡ some b
      → (b' : Batch) × (row batch_id i s'.batches ≡ some b') × BatchIsValid b' × Moves b b'
  update-each s s' id f w h e v i b found = elim (Bool-cases (i == id)) [
    | inl same ↦
        let here = subst (λ j. row batch_id j s.batches ≡ some b) (same_number i id same) found in
        let (valid, evolves) = h b here (v.each i b found) in
        (f b, ground (arith, update-row s s' id i f w e, same, found), valid, evolves)
    | inr other ↦ (
      b,
      ground (arith, update-row s s' id i f w e, other, found),
      v.each i b found,
      Moves-refl b,
    )
  ]

  pub update-Good :
      (s s' : State) (id : ℕ) (f : Batch → Batch)
      → Writes f
      → Keeps s id f
      → s'.batches ≡ update batch_id id f s.batches
      → s'.next_id ≡ s.next_id
      → IsValid s
      → Good s s'
  update-Good s s' id f w h e n v = record {
    valid = record {
      ordered = rw (e, n) (update-Below batch_id id s.next_id f s.batches (λ b. (w b).0) v.ordered);
      single = λ o a. rw e (
          omega (
            arith,
            v.single o a,
            count-update-le batch_id (occupies_asset o a) id f s.batches (λ b. (w b).1 o a),
          ));
      each = λ i b found. elim (Option-cases (row batch_id i s.batches)) [
        | inl missing ↦ ground (arith, update-row s s' id i f w e, missing, found)
        | inr (c, before) ↦
            let (b', after, valid, _) = update-each s s' id f w h e v i c before in
            subst BatchIsValid (some_batch (sym after ∙ found)) valid
      ];
    };
    preserves = λ i b found.
        let (b', after, _, evolves) = update-each s s' id f w h e v i b found in
        (b', after, evolves);
  }

  occupied_once :
      (bs : List Batch) (b : Batch) (o a : ℕ)
      → find (occupies_asset b.organization b.asset) bs ≡ none
      → count_if (occupies_asset o a) bs ≤ 1
      → count_if (occupies_asset o a) (b ∷ bs) ≤ 1
  occupied_once bs b o a free le = elim (Bool-cases (occupies_asset o a b)) [
    | inr other ↦ rw other le
    | inl same ↦ rw same (
        omega (
          arith,
          subst (λ i. count_if (occupies_asset i a) bs ≡ 0)
              (same_number b.organization o (ground (arith, same)))
              (subst (λ j. count_if (occupies_asset b.organization j) bs ≡ 0)
                (same_number b.asset a (ground (arith, same)))
                (find-none (occupies_asset b.organization b.asset) bs free)),
        ))
  ]

  -- A batch is added for an asset without an unfinished one.
  pub cons-Good :
      (s : State) (b : Batch) (t : Table)
      → b.id ≡ s.next_id
      → BatchIsValid b
      → find (occupies_asset b.organization b.asset) s.batches ≡ none
      → IsValid s
      → Good s (record { scans = t; batches = b ∷ s.batches; next_id = suc s.next_id })
  unfolding row
  cons-Good s b t fresh valid free v = record {
    valid = record {
      ordered =
          (omega (arith, fresh), subst (λ n. Below batch_id n s.batches) (sym fresh) v.ordered);
      single = λ o a. occupied_once s.batches b o a free (v.single o a);
      each = λ i c found. elim (Bool-cases (b.id == i)) [
        | inl same ↦
            subst BatchIsValid {x = b} {y = c} (some_batch (ground (arith, same, found))) valid
        | inr other ↦ v.each i c (ground (arith, other, found))
      ];
    };
    preserves = λ i c found.
        (c, row-cons batch_id i s.next_id b s.batches c v.ordered fresh found, Moves-refl c);
  }
