-- ===== src/Diagnostics/Pipeline/Order.antt =====
-- In which order a diagnostic goes through its stages, and that it ends
-- (backend/src/scans/diagnostic-orchestrator.service.ts, `getStagesForProfile`, `advancePipeline`).
use sistema_de_gestion_de_po.Common.{
  ◌&&◌, ℕ, zero, suc, ◌+◌, ◌≤◌, ◌<◌, ◌≡◌, refl, sym, ap, subst, ◌⊎◌, inl, inr, true, false, ◌&&◌,
  Option, none, some, min, List, [], ◌∷◌, any, keep, ◌∙◌, All, length, ltb, is_some, arith,
  Bool-cases, Option-cases,
}
use sistema_de_gestion_de_po.Common.Keyed.{row, row-update}
use sistema_de_gestion_de_po.Domain.{AssetType}
use sistema_de_gestion_de_po.Scans.{Scan, Table, in_progress}
use sistema_de_gestion_de_po.Diagnostics.{BatchStatus, Profile, StageDefinition, stages_for_profile}
use sistema_de_gestion_de_po.Diagnostics.Summary.{Data, summary}
use sistema_de_gestion_de_po.Diagnostics.Pipeline.{
  Batch, State, Env, batch_id, of_batch, in_stage, waits_in_stage, is_unfinished, nth_stage,
  enter_stage, leave_stage, complete_batch, advance_pipeline, final_status,
}

-- Stages numbered one after another, the first of them `suc k`.
abbrev Numbered : ℕ → List StageDefinition → Type 0
Numbered k [] = Unit
Numbered k (s ∷ ss) = (s.stage ≡ suc k) × Numbered (suc k) ss

stages-Numbered : (p : Profile) (t : AssetType) → Numbered 0 (stages_for_profile p t)
unfolding stages_for_profile
stages-Numbered Profile.perimeter_fast t = (refl, (refl, tt))
stages-Numbered Profile.full_audit AssetType.domain = (refl, (refl, (refl, tt)))
stages-Numbered Profile.full_audit AssetType.ip = (refl, (refl, tt))
stages-Numbered Profile.full_audit AssetType.cloud_account = (refl, (refl, tt))
stages-Numbered Profile.commerce_360 AssetType.domain = (refl, (refl, (refl, tt)))
stages-Numbered Profile.commerce_360 AssetType.ip = (refl, (refl, tt))
stages-Numbered Profile.commerce_360 AssetType.cloud_account = (refl, (refl, tt))

nth-Numbered :
    (k n : ℕ) (ss : List StageDefinition) (st : StageDefinition)
    → Numbered k ss
    → nth_stage n ss ≡ some st
    → st.stage ≡ suc (k + n)
nth-Numbered k n [] st h e = ground (arith, e)
nth-Numbered k zero (s ∷ ss) st h e = ground (arith, h.0, e)
nth-Numbered k (suc n) (s ∷ ss) st h e = omega (arith, nth-Numbered (suc k) n ss st h.1 e)

pub nth_stage-number :
    (p : Profile) (t : AssetType) (n : ℕ) (st : StageDefinition)
    → nth_stage n (stages_for_profile p t) ≡ some st
    → st.stage ≡ suc n
nth_stage-number p t n st e =
    omega (arith, nth-Numbered 0 n (stages_for_profile p t) st (stages-Numbered p t) e)

pub nth_stage-some :
    (n : ℕ) (ss : List StageDefinition) (st : StageDefinition)
    → nth_stage n ss ≡ some st
    → n < length ss
nth_stage-some n [] st e = ground (arith, e)
nth_stage-some zero (s ∷ ss) st e = omega arith
nth_stage-some (suc n) (s ∷ ss) st e = omega (arith, nth_stage-some n ss st e)

pub nth_stage-none : (n : ℕ) (ss : List StageDefinition) → nth_stage n ss ≡ none → length ss ≤ n
nth_stage-none n [] e = omega arith
nth_stage-none zero (s ∷ ss) e = ground (arith, e)
nth_stage-none (suc n) (s ∷ ss) e = omega (arith, nth_stage-none n ss e)

pub stages_cases :
    (ss : List StageDefinition)
    → (ss ≡ [])
      ⊎ ((first : StageDefinition) × (others : List StageDefinition) × (ss ≡ first ∷ others))
stages_cases [] = inl refl
stages_cases (first ∷ others) = inr (first, others, refl)

pub row-id : (id : ℕ) (bs : List Batch) (b : Batch) → row batch_id id bs ≡ some b → b.id ≡ id
unfolding row
row-id id [] b h = ground (arith, h)
row-id id (c ∷ bs) b h = ground (arith, h, row-id id bs b)

-- The values with which a batch may leave a stage: the next stage, or an end.
abbrev pub Ends : Batch → Batch → ℕ → Type 0
Ends b b' now =
    (is_unfinished b'.status ≡ false)
    × (b'.current_stage ≡ b.current_stage)
    × (b'.total_stages ≡ b.total_stages)
    × (b'.finished_at ≡ some now)
    × (is_some b'.summary ≡ true)

-- `stages` is how many stages the profile has for the type that the asset has now.
abbrev pub MovesOn : Batch → Batch → (stages now : ℕ) → Type 0
MovesOn b b' stages now =
    ((b.current_stage < min b.total_stages stages)
      × (b' ≡ record b { current_stage = suc b.current_stage }))
    ⊎ ((min b.total_stages stages ≤ b.current_stage) × Ends b b' now)

final-Ends : (scans : List Scan) → is_unfinished (final_status scans) ≡ false
final-Ends scans = ground arith

-- No scan of the batch waits or runs.
abbrev pub IsIdle : ℕ → Table × ℕ → Type 0
IsIdle id t = any (λ r. of_batch id r && in_progress r.status) t.0.rows ≡ false

idle_waits :
    (b : Batch) (id : ℕ) (rows : List Scan)
    → b.id ≡ id
    → any (λ r. of_batch id r && in_progress r.status) rows ≡ false
    → any (waits_in_stage b) rows ≡ false
idle_waits b id [] same h = refl
idle_waits b id (r ∷ rows) same h = ground (arith, h, same, idle_waits b id rows same)

module _ (env : Env) (d : Data) (type_of : ℕ → AssetType) where
  complete-row :
      (s : State) (id now : ℕ) (b : Batch)
      → row batch_id id s.batches ≡ some b
      → (b' : Batch) × (row batch_id id (complete_batch d s id now).batches ≡ some b')
        × Ends b b' now
  unfolding complete_batch
  complete-row s id now b e =
      let scans = keep (of_batch id) s.scans.rows in
      let f : Batch → Batch = λ c. record c {
        status = final_status scans;
        finished_at = some now;
        summary = some (summary d c.asset scans);
      } in
      (
        f b,
        ground (arith, e, row-update batch_id id id f s.batches (λ c. refl)),
        (final-Ends scans, refl, refl, refl, refl),
      )

  enter-row :
      (s : State) (id now : ℕ) (b : Batch) (st : StageDefinition)
      → row batch_id id s.batches ≡ some b
      → row batch_id id (enter_stage env s b st now).batches
        ≡ some (record b { current_stage = st.stage })
  unfolding enter_stage
  enter-row s id now b st e = ground (
    arith,
    e,
    row-id id s.batches b e,
    row-update batch_id id id (λ (c : Batch). record c { current_stage = st.stage }) s.batches
        (λ c. refl),
  )

  leave-row :
      (s : State) (id now : ℕ) (b : Batch) (type : AssetType)
      → row batch_id id s.batches ≡ some b
      → (b' : Batch) × (row batch_id id (leave_stage env d s b type now).batches ≡ some b')
        × MovesOn b b' (length (stages_for_profile b.profile type)) now
  unfolding leave_stage
  leave-row s id now b type e =
      let same = row-id id s.batches b e in
      let (b', found, ends) =
        complete-row s b.id now b (subst (λ i. row batch_id i s.batches ≡ some b) (sym same) e) in
      let found' =
        subst (λ i. row batch_id i (complete_batch d s b.id now).batches ≡ some b') same found in
      elim (Bool-cases (ltb b.current_stage b.total_stages)) [
        | inr last ↦ (b', rw (leave_stage, last) found', inr (ground (arith, last), ends))
        | inl more ↦
            elim (Option-cases (nth_stage b.current_stage (stages_for_profile b.profile type))) [
              | inl missing ↦ (
                b',
                rw (leave_stage, more, missing) found',
                inr (
                  omega (
                    arith,
                    nth_stage-none b.current_stage (stages_for_profile b.profile type) missing,
                  ),
                  ends,
                ),
              )
              | inr (st, present) ↦ (
                record b { current_stage = st.stage },
                rw (leave_stage, more, present) (enter-row s id now b st e),
                inl (
                  ground (
                    arith,
                    more,
                    nth_stage-some b.current_stage (stages_for_profile b.profile type) st present,
                  ),
                  ap (λ n. record b { current_stage = n })
                      (nth_stage-number b.profile type b.current_stage st present),
                ),
              )
            ]
      ]

  -- A diagnostic that runs stays as it is while a scan of its current stage waits or runs. When none
  -- does, it enters the stage with the next number as long as there is one, and only after the last
  -- does it end, with a date and a summary. The last stage is that with which it was started or, if
  -- the type of its asset has fewer stages by now, the last of these.
  pub advance_pipeline-InOrder :
      (s : State) (id now : ℕ) (b : Batch)
      → row batch_id id s.batches ≡ some b
      → b.status ≡ BatchStatus.in_progress
      → ((any
              (λ (r : Scan). of_batch b.id r && in_stage b.current_stage r && in_progress r.status)
              s.scans.rows
            ≡ true)
          × (advance_pipeline env d type_of s id now ≡ s))
        ⊎ ((any
                (λ (r : Scan).
                  of_batch b.id r && in_stage b.current_stage r && in_progress r.status)
                s.scans.rows
              ≡ false)
            × ((b' : Batch) × (row batch_id id (advance_pipeline env d type_of s id now).batches
                  ≡ some b')
                × MovesOn b b' (length (stages_for_profile b.profile (type_of b.asset))) now))
  unfolding advance_pipeline
  advance_pipeline-InOrder s id now b e running =
      elim (Bool-cases (any (waits_in_stage b) s.scans.rows)) [
        | inl waits ↦ inl (waits, rw (advance_pipeline, e, running, waits) refl)
        | inr over ↦
            let (b', found, moves) = leave-row s id now b (type_of b.asset) e in
            inr (over, (b', rw (advance_pipeline, e, running, over) found, moves))
      ]

  advance_pipeline-ended :
      (s : State) (id now : ℕ) (b : Batch)
      → row batch_id id s.batches ≡ some b
      → is_unfinished b.status ≡ false
      → advance_pipeline env d type_of s id now ≡ s
  unfolding advance_pipeline
  advance_pipeline-ended s id now b e ended = ground (arith, e, ended)

  -- The pipeline is advanced again and again, each time with the queue as the workers have left it.
  pub advance_rounds : State → ℕ → List (Table × ℕ) → State
  advance_rounds s id [] = s
  advance_rounds s id ((t, now) ∷ rounds) =
      advance_rounds (advance_pipeline env d type_of (record s { scans = t }) id now) id rounds

  rounds_ended :
      (s : State) (id : ℕ) (rounds : List (Table × ℕ)) (b : Batch)
      → row batch_id id s.batches ≡ some b
      → is_unfinished b.status ≡ false
      → row batch_id id (advance_rounds s id rounds).batches ≡ some b
  unfolding advance_rounds
  rounds_ended s id [] b e ended = e
  rounds_ended s id ((t, now) ∷ rounds) b e ended =
      rw (advance_rounds, advance_pipeline-ended (record s { scans = t }) id now b e ended)
        (rounds_ended (record s { scans = t }) id rounds b e ended)

  -- A diagnostic that runs has ended after as many advances as it has stages from the current one
  -- on, if none of its scans waits or runs at any of them.
  pub advance_rounds-Ends :
      (s : State) (id : ℕ) (rounds : List (Table × ℕ)) (b : Batch)
      → row batch_id id s.batches ≡ some b
      → b.status ≡ BatchStatus.in_progress
      → All (IsIdle id) rounds
      → b.total_stages < b.current_stage + length rounds
      → b.current_stage ≤ b.total_stages
      → (b' : Batch) × (row batch_id id (advance_rounds s id rounds).batches ≡ some b')
        × (is_unfinished b'.status ≡ false)
        × (is_some b'.summary ≡ true)
  unfolding advance_rounds
  advance_rounds-Ends s id [] b e running idle enough below = absurd (omega (arith, enough, below))
  advance_rounds-Ends s id ((t, now) ∷ rounds) b e running (free, idle) enough below =
      elim (advance_pipeline-InOrder (record s { scans = t }) id now b e running) [
        | inl (waits, _) ↦
            absurd (ground (arith, waits, idle_waits b id t.rows (row-id id s.batches b e) free))
        | inr (_, (b', found, inl (more, same))) ↦
            advance_rounds-Ends (advance_pipeline env d type_of (record s { scans = t }) id now) id
              rounds (record b { current_stage = suc b.current_stage }) (found_as found same)
              running idle (omega (arith, enough)) (ground (arith, more))
        | inr (_, (b', found, inr (_, (ended, _, _, _, summed)))) ↦ (
          b',
          rounds_ended (advance_pipeline env d type_of (record s { scans = t }) id now) id rounds b'
              found ended,
          ended,
          summed,
        )
      ]
    where
      found_as : {o : Option Batch} {x y : Batch} → o ≡ some x → x ≡ y → o ≡ some y
      found_as f g = f ∙ ap some g
