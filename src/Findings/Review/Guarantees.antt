-- ===== src/Findings/Review/Guarantees.antt =====
-- Whom a review or a re-test can touch, and how it moves a finding through its life cycle.
use sistema_de_gestion_de_po.Common.{
  ℕ, ◌≡◌, refl, ◌≢◌, inl, inr, Bool, true, some, String, ◌==◌, ==_iff, if◌then◌else◌, ap, find, All,
  arith, ◌&&◌,
}
use sistema_de_gestion_de_po.Domain.{Status}
use sistema_de_gestion_de_po.Findings.{
  Finding, Table, Result, ok, update_row, row, Below, DatedWhenResolved, Result-cases,
}
use sistema_de_gestion_de_po.Findings.Rows.{KeepsId, row-update, find-row, All-update_row, row-All}
use sistema_de_gestion_de_po.Findings.Review.{
  Account, State, ReviewDto, is_reviewable, find_one, reviewed, review, retested, retest,
}

-- What is found is the row of the identifier, and belongs to the organization.
find_one-row :
    (t : Table) (organization id : ℕ) (x : Finding)
    → Below t.next_id t.rows
    → find_one t organization id ≡ ok x
    → (row id t.rows ≡ some x) × (x.organization ≡ organization)
unfolding find_one
find_one-row t organization id x b h =
    let found : find (λ r. r.id == id && r.organization == organization) t.rows ≡ some x =
      ground (arith, h) in
    let (at, passes) =
      find-row (λ r. r.id == id && r.organization == organization) t.next_id t.rows x b found in
    (ground (arith, at, passes), ground (arith, passes))

-- The change of one row that the organization owns, and of no other.
abbrev pub ChangesOnly : ℕ → ℕ → (Finding → Finding → Finding) → Table → Table → Type 0
ChangesOnly organization id change t t' =
    (x : Finding) × (row id t.rows ≡ some x)
    × (x.organization ≡ organization)
    × ((i : ℕ) → row i t'.rows ≡ (if i == id then some (change x x) else row i t.rows))

changes_only :
    (t : Table) (organization id : ℕ) (change : Finding → Finding → Finding) (x : Finding)
    → Below t.next_id t.rows
    → find_one t organization id ≡ ok x
    → ((r s : Finding) → (change r s).id ≡ s.id)
    → ChangesOnly organization id change t (record t { rows = update_row id (change x) t.rows })
changes_only t organization id change x b h keeps =
    let (at, owned) = find_one-row t organization id x b h in
    (
      x,
      at,
      owned,
      λ i.
          ground
            (arith, row-update i id (change x) t.rows (keeps x), ==_iff i id, at, same_row t i id),
    )
  where
    same_row : (t : Table) (i j : ℕ) → (i == j) ≡ true → row i t.rows ≡ row j t.rows
    same_row t i j e = ap (λ k. row k t.rows) ((==_iff i j).0 e)

abbrev pub Dated : Table → Type 0
Dated t = All DatedWhenResolved t.rows

retested-DatedWhenResolved :
    (still : Bool) (now : ℕ) (x : Finding)
    → DatedWhenResolved x
    → DatedWhenResolved (retested still now x x)
unfolding retested
retested-DatedWhenResolved still now x h = ground arith

module _ (trim : String → String) where
  review_done :
      (actor : Account) (id : ℕ) (dto : ReviewDto) (s s' : State)
      → review trim actor id dto s ≡ ok s'
      → (x : Finding) × (find_one s.findings actor.organization id ≡ ok x)
        × (s'.findings ≡ record (s.findings) {
          rows = update_row id (reviewed trim actor dto x) s.findings.rows;
        })
  unfolding review
  review_done actor id dto s s' h =
      elim (Result-cases (find_one s.findings actor.organization id)) [
        | inl (x, e) ↦ (x, e, ground (arith, h, e))
        | inr (f, e) ↦ absurd (ground (arith, h, e))
      ]

  -- Where identifiers are distinct, a successful review changes one finding, which belongs to the actor's organization, and leaves
  -- every other row of the table as it was.
  pub review-ChangesOnly :
      (actor : Account) (id : ℕ) (dto : ReviewDto) (s s' : State)
      → Below s.findings.next_id s.findings.rows
      → review trim actor id dto s ≡ ok s'
      → ChangesOnly actor.organization id (reviewed trim actor dto) s.findings s'.findings
  unfolding reviewed
  review-ChangesOnly actor id dto s s' b h =
      let (x, found, after) = review_done actor id dto s s' h in
      rw after (
        changes_only s.findings actor.organization id (reviewed trim actor dto) x b found
          (λ r z. refl))

  reviewed-KeepsId :
      (actor : Account) (dto : ReviewDto) (x : Finding) → KeepsId (reviewed trim actor dto x)
  unfolding reviewed
  reviewed-KeepsId actor dto x r = refl

  reviewed-DatedWhenResolved :
      (actor : Account) (dto : ReviewDto) (x : Finding)
      → ((st : Status) → dto.status ≡ some st → is_reviewable st ≡ true)
      → DatedWhenResolved x
      → DatedWhenResolved (reviewed trim actor dto x x)
        × ((reviewed trim actor dto x x).status ≡ Status.resolved → x.status ≡ Status.resolved)
  unfolding reviewed
  reviewed-DatedWhenResolved actor dto x allowed h = ground (arith, allowed Status.resolved)

  -- Where identifiers are distinct, a review with a status that the request may carry keeps every
  -- finding with a resolution date
  -- exactly when it is resolved.
  pub review-Dated :
      (actor : Account) (id : ℕ) (dto : ReviewDto) (s s' : State)
      → Below s.findings.next_id s.findings.rows
      → ((st : Status) → dto.status ≡ some st → is_reviewable st ≡ true)
      → review trim actor id dto s ≡ ok s'
      → Dated s.findings
      → Dated s'.findings
  review-Dated actor id dto s s' b allowed h dated =
      let (x, found, after) = review_done actor id dto s s' h in
      let (at, _) = find_one-row s.findings actor.organization id x b found in
      let was : DatedWhenResolved x = row-All DatedWhenResolved id s.findings.rows x dated at in
      rw after (
        All-update_row DatedWhenResolved id s.findings.next_id (reviewed trim actor dto x)
          s.findings.rows x b at (reviewed-DatedWhenResolved actor dto x allowed was).0 dated)

  -- Where identifiers are distinct and every finding has a resolution date exactly when it is
  -- resolved, a review with a status that the request may carry cannot resolve a finding: the row of its
  -- identifier, not resolved before, is not resolved after.
  pub review-not_resolved :
      (actor : Account) (id : ℕ) (dto : ReviewDto) (s s' : State) (r r' : Finding)
      → Below s.findings.next_id s.findings.rows
      → ((st : Status) → dto.status ≡ some st → is_reviewable st ≡ true)
      → review trim actor id dto s ≡ ok s'
      → Dated s.findings
      → row id s.findings.rows ≡ some r
      → row id s'.findings.rows ≡ some r'
      → r.status ≢ Status.resolved
      → r'.status ≢ Status.resolved
  review-not_resolved actor id dto s s' r r' b allowed h dated e e' open_ done =
      let (x, found, after) = review_done actor id dto s s' h in
      let (at, _) = find_one-row s.findings actor.organization id x b found in
      let was : DatedWhenResolved x = row-All DatedWhenResolved id s.findings.rows x dated at in
      open_ (
        not_resolved x was (ground (arith, at, e)) (
          ground (
            arith,
            e',
            after,
            at,
            row-update id id (reviewed trim actor dto x) s.findings.rows
                (reviewed-KeepsId actor dto x),
          )))
    where
      not_resolved :
          (x : Finding)
          → DatedWhenResolved x
          → x ≡ r
          → reviewed trim actor dto x x ≡ r'
          → r.status ≡ Status.resolved
      not_resolved x was same becomes =
          ground
            (arith, same, becomes, done, (reviewed-DatedWhenResolved actor dto x allowed was).1)

abbrev pub RetestsOnly : (Finding → Result Bool) → ℕ → ℕ → ℕ → Table → Table → Type 0
RetestsOnly probe organization id now t t' =
    (x : Finding) × (still : Bool) × (row id t.rows ≡ some x)
    × (probe x ≡ ok still)
    × ChangesOnly organization id (retested still now) t t'

retest_done :
    (probe : Finding → Result Bool) (actor : Account) (id now : ℕ) (s s' : State)
    → retest probe actor id now s ≡ ok s'
    → (x : Finding) × (still : Bool) × (find_one s.findings actor.organization id ≡ ok x)
      × (probe x ≡ ok still)
      × (s'.findings
          ≡ record (s.findings) { rows = update_row id (retested still now x) s.findings.rows })
unfolding retest
retest_done probe actor id now s s' h =
    elim (Result-cases (find_one s.findings actor.organization id)) [
      | inr (f, e) ↦ absurd (ground (arith, h, e))
      | inl (x, e) ↦ elim (Result-cases (probe x)) [
        | inl (still, p) ↦ (x, still, e, p, ground (arith, h, e, p))
        | inr (f, p) ↦ absurd (ground (arith, h, e, p))
      ]
    ]

-- Where identifiers are distinct, a successful re-test changes one finding, which belongs to the actor's organization, by the
-- answer that the probe gave for it, and leaves every other row as it was.
pub retest-RetestsOnly :
    (probe : Finding → Result Bool) (actor : Account) (id now : ℕ) (s s' : State)
    → Below s.findings.next_id s.findings.rows
    → retest probe actor id now s ≡ ok s'
    → RetestsOnly probe actor.organization id now s.findings s'.findings
unfolding retested
retest-RetestsOnly probe actor id now s s' b h =
    let (x, still, found, answer, after) = retest_done probe actor id now s s' h in
    let (at, _) = find_one-row s.findings actor.organization id x b found in
    (
      x,
      still,
      at,
      answer,
      rw after (
          changes_only s.findings actor.organization id (retested still now) x b found
            (λ r z. ground arith)),
    )

-- Where identifiers are distinct, a re-test keeps every finding with a resolution date exactly when it is resolved.
pub retest-Dated :
    (probe : Finding → Result Bool) (actor : Account) (id now : ℕ) (s s' : State)
    → Below s.findings.next_id s.findings.rows
    → retest probe actor id now s ≡ ok s'
    → Dated s.findings
    → Dated s'.findings
retest-Dated probe actor id now s s' b h dated =
    let (x, still, found, answer, after) = retest_done probe actor id now s s' h in
    let (at, _) = find_one-row s.findings actor.organization id x b found in
    rw after (
      All-update_row DatedWhenResolved id s.findings.next_id (retested still now x) s.findings.rows
        x b at
        (retested-DatedWhenResolved still now x
          (row-All DatedWhenResolved id s.findings.rows x dated at))
        dated)
