-- ===== src/Rotation/Deadline.antt =====
-- Once its deadlines have passed, a compaction ends.
use redgeo.Base.{
  Bytes, ℤ, ltz, lez, pos, leb, Bool-cases, Option-cases, ℕ, ◌+◌, ◌≡◌, refl, sym, ap, ◌∙◌, ◌≢◌, inl,
  inr, true, false, ◌||◌, none, some, List, [], ◌∷◌, ◌++◌, arith,
}
use redgeo.Engine.Partition.{Partition, in_doubt, stage, activate, freeze}
use redgeo.Rotation.{Site}
use redgeo.Rotation.Coordinator.{
  Inputs, Ending, Round, SwitchRound, Verdict, SwitchVerdict, converged, failed, running, switched,
  switch_failed, switching, converge, tally_round, is_clean, await_ready, all_ready, compact,
  switch_all, move_over, converge_then, add_all,
}

module _ (members : List Bytes) (r : Round) (rounds : List Round) (union : List Bytes) (n : ℕ) where
  -- A pass that does not end the loop.
  pass_goes_on :
      converge members (r ∷ rounds) union n ≡ running
      → (u : List Bytes) × (k : ℕ) × (converge members rounds u k ≡ running)
        × (r.late ≡ true → (k ≡ n + 1) × (leb 2 (n + 1) ≡ false))
  unfolding converge
  pass_goes_on h =
      let t = tally_round members r union in
      elim (Bool-cases r.collected) [
        | inr e ↦ absurd (ground arith)
        | inl got ↦ elim (Option-cases t.rejected) [
          | inr (id, e) ↦ absurd (ground arith)
          | inl e ↦ elim (Bool-cases (is_clean r t)) [
            | inl c ↦ elim (Bool-cases (leb 2 (n + 1))) [
              | inl enough ↦ absurd (ground arith)
              | inr few ↦ (t.union, n + 1, ground arith, λ late. (refl, few))
            ]
            | inr c ↦ elim (Bool-cases r.late) [
              | inl late ↦ absurd (ground arith)
              | inr early ↦ elim (Bool-cases r.alive) [
                | inl a ↦ (t.union, 0, ground arith, λ late. absurd (ground arith))
                | inr a ↦ absurd (ground arith)
              ]
            ]
          ]
        ]
      ]

converge_ends :
    (members : List Bytes) (before after : List Round) (r1 r2 : Round) (union : List Bytes) (n : ℕ)
    → r1.late ≡ true
    → r2.late ≡ true
    → converge members (before ++ r1 ∷ r2 ∷ after) union n ≢ running
converge_ends members [] after r1 r2 union n late1 late2 h =
    let (u, k, h2, once) = pass_goes_on members r1 (r2 ∷ after) union n h in
    let (v, j, h3, twice) = pass_goes_on members r2 after u k h2 in
    absurd (ground (arith, once late1, twice late2))
converge_ends members (r ∷ before) after r1 r2 union n late1 late2 h =
    let (u, k, h2, once) = pass_goes_on members r (before ++ r1 ∷ r2 ∷ after) union n h in
    converge_ends members before after r1 r2 u k late1 late2 h2

await_ready_goes_on :
    (members : List Bytes) (r : SwitchRound) (rounds : List SwitchRound)
    → await_ready members (r ∷ rounds) ≡ switching
    → (r.late ≡ false) × (await_ready members rounds ≡ switching)
unfolding await_ready
await_ready_goes_on members r rounds h = elim (Bool-cases r.collected) [
  | inr e ↦ absurd (ground arith)
  | inl got ↦ elim (Option-cases (all_ready r.ready members).1) [
    | inr (id, e) ↦ absurd (ground arith)
    | inl e ↦ elim (Bool-cases (all_ready r.ready members).0) [
      | inl all ↦ absurd (ground arith)
      | inr few ↦ elim (Bool-cases r.late) [
        | inl late ↦ absurd (ground arith)
        | inr early ↦ elim (Bool-cases r.alive) [
          | inl a ↦ (early, ground arith)
          | inr a ↦ absurd (ground arith)
        ]
      ]
    ]
  ]
]

await_ready_ends :
    (members : List Bytes) (before after : List SwitchRound) (r : SwitchRound)
    → r.late ≡ true
    → await_ready members (before ++ r ∷ after) ≢ switching
await_ready_ends members [] after r late h = ground (arith, await_ready_goes_on members r after h)
await_ready_ends members (q ∷ before) after r late h =
    await_ready_ends members before after r late
      (await_ready_goes_on members q (before ++ r ∷ after) h).1

switch_all_ends :
    (i : Inputs) (members : List Bytes) (p : Partition)
    → await_ready members i.switch_rounds ≢ switching
    → switch_all i members p ≢ none
unfolding switch_all
switch_all_ends i members p h e = go (await_ready members i.switch_rounds) refl
  where
    go : (v : SwitchVerdict) → await_ready members i.switch_rounds ≡ v → ⊥
    go switched q = ground arith
    go (switch_failed f) q = ground arith
    go switching q = h q

move_over_ends :
    (i : Inputs) (members : List Bytes) (p : Partition)
    → await_ready members i.switch_rounds ≢ switching
    → move_over i members p ≢ none
unfolding move_over
move_over_ends i members p h e =
    let (q, staged) = stage i.opened i.copied true p in
    let (r, activated) = activate i.activate_gen i.activate_prev false q in
    elim (Bool-cases staged) [
      | inr failed_stage ↦ ground arith
      | inl ok ↦ elim (Bool-cases activated) [
        | inl over ↦ switch_all_ends i members r h (ground arith)
        | inr back ↦ ground arith
      ]
    ]

converge_then_ends :
    (i : Inputs) (members : List Bytes) (p : Partition)
    → converge members i.rounds (add_all ([], false) i.heads).0 0 ≢ running
    → await_ready members i.switch_rounds ≢ switching
    → converge_then i members p ≢ none
unfolding converge_then
converge_then_ends i members p h k e =
    go (converge members i.rounds (add_all ([], false) i.heads).0 0) refl
  where
    go : (v : Verdict) → converge members i.rounds (add_all ([], false) i.heads).0 0 ≡ v → ⊥
    go (converged u) q = move_over_ends i members p k (ground arith)
    go (failed f) q = ground arith
    go running q = h q

compact_some :
    (i : Inputs) (parts : ℕ) (part : ℤ) (members : List Bytes) (s : Site)
    → converge_then i members (freeze s.part) ≢ none
    → compact i parts part members s ≢ none
unfolding compact
compact_some i parts part members s h e =
    elim (Bool-cases (ltz part (pos 0) || lez (pos parts) part)) [
      | inl out ↦ ground arith
      | inr inside ↦ elim (Option-cases s.st) [
        | inr (st, q) ↦ ground arith
        | inl q ↦ elim (Bool-cases (in_doubt s.part)) [
          | inl d ↦ ground arith
          | inr d ↦ elim (Bool-cases i.drained) [ inl y ↦ h (ground arith) | inr n ↦ ground arith ]
        ]
      ]
    ]

-- A compaction ends, in success or in failure, if the passes that it meets include two in a row of
-- phase 1 after its deadline, and one of phase 2 after its deadline: whatever the members answer.
pub compact_ends :
    (i : Inputs) (parts : ℕ) (part : ℤ) (members : List Bytes) (s : Site)
    (before after : List Round) (r1 r2 : Round) (earlier later : List SwitchRound) (r : SwitchRound)
    → i.rounds ≡ before ++ r1 ∷ r2 ∷ after
    → r1.late ≡ true
    → r2.late ≡ true
    → i.switch_rounds ≡ earlier ++ r ∷ later
    → r.late ≡ true
    → (e : Ending) × (compact i parts part members s ≡ some e)
compact_ends i parts part members s before after r1 r2 earlier later r rounds late1 late2 switches
      late =
    let u = (add_all ([], false) i.heads).0 in
    let phase1 : converge members i.rounds u 0 ≢ running = λ h.
      converge_ends members before after r1 r2 u 0 late1 late2
        (ap (λ x. converge members x u 0) (sym rounds) ∙ h) in
    let phase2 : await_ready members i.switch_rounds ≢ switching = λ h.
      await_ready_ends members earlier later r late (ap (await_ready members) (sym switches) ∙ h) in
    elim (Option-cases (compact i parts part members s)) [
      | inl e ↦ absurd (
          compact_some i parts part members s
            (converge_then_ends i members (freeze s.part) phase1 phase2) e)
      | inr ends ↦ ends
    ]
