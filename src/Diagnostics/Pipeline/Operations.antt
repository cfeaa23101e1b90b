-- ===== src/Diagnostics/Pipeline/Operations.antt =====
-- What each operation on the diagnostics keeps, row by row
-- (backend/src/scans/diagnostic-orchestrator.service.ts).
use sistema_de_gestion_de_po.Common.{
  ℕ, suc, ◌<◌, ◌≤◌, ◌≡◌, refl, sym, subst, ◌∙◌, ◌⊎◌, inl, inr, true, not, ◌&&◌, ◌||◌, none, some,
  List, ◌∷◌, any, keep, find, ◌==◌, ltb, arith, Bool-cases, Option-cases,
}
use sistema_de_gestion_de_po.Common.Keyed.{row}
use sistema_de_gestion_de_po.Domain.{AssetType}
use sistema_de_gestion_de_po.Scans.{Asset, Scan}
use sistema_de_gestion_de_po.Diagnostics.{
  BatchStatus, Profile, StageDefinition, stages_for_profile, same_batch_status,
}
use sistema_de_gestion_de_po.Diagnostics.Summary.{Data, summary}
use sistema_de_gestion_de_po.Diagnostics.Pipeline.{
  Batch, State, Env, batch_id, of_batch, waits_in_stage, occupies_asset, nth_stage, new_batch,
  enqueue_stage, start, start_asset, enter_stage, leave_stage, complete_batch, advance_pipeline,
  final_status, cancel_batch,
}
use sistema_de_gestion_de_po.Diagnostics.Pipeline.Order.{
  nth_stage-number, nth_stage-some, nth_stage-none, row-id, stages_cases,
}
use sistema_de_gestion_de_po.Diagnostics.Pipeline.Rows.{
  BatchIsValid, IsValid, Moves, Move, phase, finishes, enters, cancels, Cause, last_stage, Good,
  same-Good, cons-Good, some_batch, update-Good,
}

module _ (env : Env) (d : Data) (type_of : ℕ → AssetType) where
  final_cases :
      (scans : List Scan)
      → (final_status scans ≡ BatchStatus.completed) ⊎ (final_status scans ≡ BatchStatus.failed)
  final_cases scans = ground arith

  completes :
      (b b' : Batch)
      → b.status ≡ BatchStatus.in_progress
      → last_stage type_of b ≤ b.current_stage
      → (b'.status ≡ BatchStatus.completed) ⊎ (b'.status ≡ BatchStatus.failed)
      → Move (last_stage type_of b) Cause.advance (phase b) (phase b')
  completes b b' is_on over (inl e) = rw (is_on, e) (finishes b.current_stage over)
  completes b b' is_on over (inr e) = rw (is_on, e) (finishes b.current_stage over)

  enters_next :
      (c : Batch) (n : ℕ)
      → c.status ≡ BatchStatus.in_progress
      → n ≡ suc c.current_stage
      → c.current_stage < last_stage type_of c
      → Move (last_stage type_of c) Cause.advance (phase c) (phase (record c { current_stage = n }))
  enters_next c n is_on number more = rw (is_on, number) (enters c.current_stage more)

  complete-Good :
      (s : State) (id now : ℕ)
      → ((b : Batch)
          → row batch_id id s.batches ≡ some b
          → (b.status ≡ BatchStatus.in_progress) × (last_stage type_of b ≤ b.current_stage))
      → IsValid s
      → Good type_of Cause.advance s (complete_batch d s id now)
  unfolding complete_batch
  complete-Good s id now at_end v =
      let scans = keep (of_batch id) s.scans.rows in
      let f : Batch → Batch = λ b. record b {
        status = final_status scans;
        finished_at = some now;
        summary = some (summary d b.asset scans);
      } in
      update-Good type_of Cause.advance s (complete_batch d s id now) id f
        (λ b. (refl, λ o a h. ground (arith, h)))
        (λ b found valid. (
          (valid.0, valid.1, ground arith),
          record {
            evolves = record {
              same_organization = refl;
              same_asset = refl;
              same_profile = refl;
              same_total = refl;
              forward = omega arith;
              ended = λ k. ground (arith, k, (at_end b found).0);
            };
            move = completes b (f b) (at_end b found).0 (at_end b found).1 (final_cases scans);
          },
        ))
        refl refl v

  enter-Good :
      (s : State) (id now : ℕ) (b : Batch) (st : StageDefinition)
      → row batch_id id s.batches ≡ some b
      → b.id ≡ id
      → b.status ≡ BatchStatus.in_progress
      → st.stage ≡ suc b.current_stage
      → b.current_stage < last_stage type_of b
      → IsValid s
      → Good type_of Cause.advance s (enter_stage env s b st now)
  unfolding enter_stage
  enter-Good s id now b st found same is_on number more v =
      update-Good type_of Cause.advance s (enter_stage env s b st now) b.id
        (λ c. record c { current_stage = st.stage }) (λ c. (refl, λ o a h. h))
        (λ c at valid.
          entered c
            (some_batch (sym found ∙ subst (λ i. row batch_id i s.batches ≡ some c) same at)) valid)
        refl refl v
    where
      entered :
          (c : Batch)
          → b ≡ c
          → BatchIsValid c
          → BatchIsValid (record c { current_stage = st.stage })
            × Moves type_of Cause.advance c (record c { current_stage = st.stage })
      entered c e valid = (
        (omega (arith, number), ground (arith, number, more, e), valid.2),
        record {
          evolves = record {
            same_organization = refl;
            same_asset = refl;
            same_profile = refl;
            same_total = refl;
            forward = ground (arith, number, e);
            ended = λ k. ground (arith, k, is_on, e);
          };
          move =
              enters_next c st.stage (ground (arith, is_on, e)) (ground (arith, number, e))
                (subst (λ (x : Batch). x.current_stage < last_stage type_of x) e more);
        },
      )

  leave-Good :
      (s : State) (id now : ℕ) (b : Batch)
      → row batch_id id s.batches ≡ some b
      → b.status ≡ BatchStatus.in_progress
      → IsValid s
      → Good type_of Cause.advance s (leave_stage env d s b (type_of b.asset) now)
  unfolding leave_stage
  leave-Good s id now b found is_on v =
      let stages = stages_for_profile b.profile (type_of b.asset) in
      let same = row-id id s.batches b found in
      let complete : last_stage type_of b ≤ b.current_stage
          → Good type_of Cause.advance s (complete_batch d s b.id now) =
        λ over.
          complete-Good s b.id now
            (λ c at.
              subst
                (λ (x : Batch).
                  (x.status ≡ BatchStatus.in_progress) × (last_stage type_of x ≤ x.current_stage))
                (some_batch (sym found ∙ subst (λ i. row batch_id i s.batches ≡ some c) same at))
                (is_on, over))
            v in
      elim (Bool-cases (ltb b.current_stage b.total_stages)) [
        | inr last ↦ rw (leave_stage, last) (complete (ground (arith, last)))
        | inl more ↦ elim (Option-cases (nth_stage b.current_stage stages)) [
          | inl missing ↦
              rw (leave_stage, more, missing)
                (complete (omega (arith, nth_stage-none b.current_stage stages missing)))
          | inr (st, present) ↦
              rw (leave_stage, more, present)
                (enter-Good s id now b st found same is_on
                  (nth_stage-number b.profile (type_of b.asset) b.current_stage st present)
                  (ground (arith, more, nth_stage-some b.current_stage stages st present)) v)
        ]
      ]

  pub advance-Good :
      (s : State) (id now : ℕ)
      → IsValid s
      → Good type_of Cause.advance s (advance_pipeline env d type_of s id now)
  unfolding advance_pipeline
  advance-Good s id now v = elim (Option-cases (row batch_id id s.batches)) [
    | inl missing ↦ rw (advance_pipeline, missing) (same-Good type_of Cause.advance s s refl refl v)
    | inr (b, found) ↦
        elim (Bool-cases (
          not (same_batch_status b.status BatchStatus.in_progress)
          || any (waits_in_stage b) s.scans.rows)) [
            | inl stays ↦
                rw (advance_pipeline, found, stays)
                  (same-Good type_of Cause.advance s s refl refl v)
            | inr over ↦
                rw (advance_pipeline, found, over)
                  (leave-Good s id now b found (ground (arith, over)) v)
          ]
  ]

  pub cancel-Good :
      (s : State) (organization id now : ℕ)
      → IsValid s
      → Good type_of Cause.cancellation s (cancel_batch s organization id now).1
  unfolding cancel_batch
  cancel-Good s organization id now v =
      elim (Option-cases
        (find (λ (b : Batch). b.id == id && b.organization == organization) s.batches)) [
          | inl missing ↦
              rw (cancel_batch, missing) (same-Good type_of Cause.cancellation s s refl refl v)
          | inr (b, found) ↦
              rw (cancel_batch, found)
                (update-Good type_of Cause.cancellation s _ b.id
                  (λ c. record c { status = BatchStatus.cancelled; finished_at = some now })
                  (λ c. (refl, λ o a h. ground (arith, h)))
                  (λ c at valid. (
                    (valid.0, valid.1, refl),
                    record {
                      evolves = record {
                        same_organization = refl;
                        same_asset = refl;
                        same_profile = refl;
                        same_total = refl;
                        forward = omega arith;
                        ended = λ k. inr refl;
                      };
                      move = cancels (phase c);
                    },
                  ))
                  refl refl v)
        ]

  start_asset-new :
      (s : State) (a : Asset) (actor : ℕ) (profile : Profile) (now : ℕ) (first : StageDefinition)
      (others : List StageDefinition)
      → (a.is_active && a.authorization_confirmed) ≡ true
      → find (occupies_asset a.organization a.id) s.batches ≡ none
      → stages_for_profile profile a.type ≡ first ∷ others
      → let b = new_batch s a actor profile (first ∷ others) now in
        (start_asset env s a actor profile now).1 ≡ record {
          scans = enqueue_stage env b 1 first.types s.scans now;
          batches = b ∷ s.batches;
          next_id = suc s.next_id;
        }
  unfolding start_asset
  start_asset-new s a actor profile now first others admitted free stages =
      ground (arith, admitted, free, stages)

  start_asset-Good :
      (s : State) (a : Asset) (actor : ℕ) (profile : Profile) (now : ℕ)
      → IsValid s
      → Good type_of Cause.elsewhere s (start_asset env s a actor profile now).1
  unfolding start_asset
  start_asset-Good s a actor profile now v =
      elim (Bool-cases (a.is_active && a.authorization_confirmed)) [
        | inr refused ↦
            same-Good type_of Cause.elsewhere s _ (ground (arith, refused))
              (ground (arith, refused)) v
        | inl admitted ↦ elim (Option-cases (find (occupies_asset a.organization a.id) s.batches)) [
          | inr (b, busy) ↦
              same-Good type_of Cause.elsewhere s _ (ground (arith, admitted, busy))
                (ground (arith, admitted, busy)) v
          | inl free ↦ elim (stages_cases (stages_for_profile profile a.type)) [
            | inl empty ↦
                same-Good type_of Cause.elsewhere s _ (ground (arith, admitted, free, empty))
                  (ground (arith, admitted, free, empty)) v
            | inr (first, others, stages) ↦
                subst (Good type_of Cause.elsewhere s)
                  (sym (start_asset-new s a actor profile now first others admitted free stages))
                  (cons-Good type_of Cause.elsewhere s
                    (new_batch s a actor profile (first ∷ others) now) _ refl
                    (omega arith, omega arith, refl) free v)
          ]
        ]
      ]

  pub start-Good :
      (s : State) (organization actor asset now : ℕ) (profile : Profile)
      → IsValid s
      → Good type_of Cause.elsewhere s (start env s organization actor asset profile now).1
  unfolding start
  start-Good s organization actor asset now profile v =
      elim (Option-cases
        (find (λ (a : Asset). a.id == asset && a.organization == organization) env.assets)) [
          | inl missing ↦ rw (start, missing) (same-Good type_of Cause.elsewhere s s refl refl v)
          | inr (a, found) ↦ rw (start, found) (start_asset-Good s a actor profile now v)
        ]
