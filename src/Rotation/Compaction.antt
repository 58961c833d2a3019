-- ===== src/Rotation/Compaction.antt =====
-- What a compaction promises on its coordinator.
use redgeo.Base.{
  Bytes, ℤ, ltz, lez, pos, lookup, if◌then◌else◌, Bool-cases, ℕ, ◌+◌, ◌≡◌, refl, inl, inr, Bool,
  true, false, ◌||◌, none, some, List, [], ◌∷◌, arith, bytes_key,
}
use mathlib.Core.Path.{subst}
use redgeo.Engine.Gate.{set_gate}
use redgeo.Engine.Partition.{
  Generation, Partition, in_doubt, persist_gen, stage, activate, commit, roll_back, freeze,
  unfreeze,
}
use redgeo.Engine.Rollback.{lookup-seed_from}
use redgeo.Rotation.{Site, Kind, done}
use redgeo.Rotation.Invariant.{IsSettled, IsOpen}
use redgeo.Rotation.Coordinator.{
  Inputs, Ending, Failure, not_staged, not_activated, not_frozen, no_partition, Verdict,
  SwitchVerdict, converged, failed, running, switched, switch_failed, switching, converge,
  await_ready, compact, three, back, leave, commit_all, switch_all, move_over, converge_then,
  add_all,
}

abbrev pub sends_done : List Kind → Bool
sends_done [] = false
sends_done (k ∷ ks) = elim k [ done ↦ true | _ ↦ false ]

-- How a compaction that found the generation `old` may leave the site.
pub record EndsWell (old : Generation) (e : Ending) : Type 0 where
  pub over : e.site.st ≡ none
  pub settled : IsSettled e.site.part
  pub opened : IsOpen e.site.part
  pub keeps : (k : Bytes) → lookup k e.site.part.cur.live ≡ lookup k old.live
  pub generation :
      e.site.part.cur.number ≡ (if sends_done e.sent then old.number + 1 else old.number)

-- The partition after Activate: the old generation is kept, and reads the same.
record IsActivated (old : Generation) (p : Partition) : Type 0 where
  none_staged : p.staged ≡ none
  previous : p.prev ≡ some old.number
  kept : p.old ≡ some old.live
  number : p.cur.number ≡ old.number + 1
  reads : (k : Bytes) → lookup k p.cur.live ≡ lookup k old.live

leave_settled :
    (i : Inputs) (e : Failure) (p : Partition) → IsSettled p → EndsWell p.cur (leave i false e [] p)
unfolding leave unfreeze set_gate three
leave_settled i e p h = record {
  over = refl;
  settled = ground arith;
  opened = ground arith;
  keeps = λ k. refl;
  generation = refl;
}

leave_activated :
    (old : Generation) (i : Inputs) (e : Failure) (p : Partition)
    → IsActivated old p
    → EndsWell old (leave i true e [] p)
unfolding leave unfreeze set_gate three back roll_back persist_gen
leave_activated old i e p h = record {
  over = ground arith;
  settled = ground arith;
  opened = ground arith;
  keeps = λ k. ground arith;
  generation = ground arith;
}

commit_all_ends :
    (old : Generation) (i : Inputs) (p : Partition)
    → IsActivated old p
    → EndsWell old (commit_all i p)
unfolding commit_all leave unfreeze set_gate three commit persist_gen
commit_all_ends old i p h = record {
  over = ground arith;
  settled = ground arith;
  opened = ground arith;
  keeps = λ k. ground (arith, h.reads k);
  generation = ground arith;
}

switch_all_ends :
    (old : Generation) (i : Inputs) (members : List Bytes) (p : Partition) (e : Ending)
    → IsActivated old p
    → switch_all i members p ≡ some e
    → EndsWell old e
unfolding switch_all
switch_all_ends old i members p e h end = go (await_ready members i.switch_rounds) refl
  where
    go : (v : SwitchVerdict) → await_ready members i.switch_rounds ≡ v → EndsWell old e
    go switched q =
        let r : commit_all i p ≡ e = ground arith in
        subst (EndsWell old) r (commit_all_ends old i p h)
    go (switch_failed f) q =
        let r : leave i true f [] p ≡ e = ground arith in
        subst (EndsWell old) r (leave_activated old i f p h)
    go switching q = absurd (ground arith)

-- What Stage with the seed and Activate make of a settled partition.
moved : Inputs → Partition → Partition
moved i p = (activate i.activate_gen i.activate_prev false (stage i.opened i.copied true p).0).0

moved-IsActivated :
    (i : Inputs) (p : Partition)
    → IsSettled p
    → (stage i.opened i.copied true p).1 ≡ true
    → IsActivated p.cur (moved i p)
unfolding moved stage activate persist_gen in_doubt
moved-IsActivated i p h ok = record {
  none_staged = ground arith;
  previous = ground arith;
  kept = ground arith;
  number = ground arith;
  reads = λ k. ground (arith, lookup-seed_from k p.cur.live);
}

-- Where Activate fails, Rollback brings the old generation back.
back-moved :
    (i : Inputs) (p : Partition)
    → IsSettled p
    → IsSettled (back i (moved i p)) × ((back i (moved i p)).cur ≡ p.cur)
unfolding moved stage activate persist_gen in_doubt back roll_back
back-moved i p h = (ground arith, ground arith)

stage_refused :
    (i : Inputs) (p : Partition)
    → (stage i.opened i.copied true p).1 ≡ false
    → (stage i.opened i.copied true p).0 ≡ p
unfolding stage in_doubt
stage_refused i p h = ground arith

move_over_ends :
    (i : Inputs) (members : List Bytes) (p : Partition) (e : Ending)
    → IsSettled p
    → move_over i members p ≡ some e
    → EndsWell p.cur e
unfolding move_over moved
move_over_ends i members p e h end = elim (Bool-cases (stage i.opened i.copied true p).1) [
  | inr no' ↦
      let r : leave i false not_staged [] p ≡ e = ground (arith, stage_refused i p no') in
      subst (EndsWell p.cur) r (leave_settled i not_staged p h)
  | inl yes' ↦
      elim (Bool-cases
        (activate i.activate_gen i.activate_prev false (stage i.opened i.copied true p).0).1) [
          | inl on ↦
              let r : switch_all i members (moved i p) ≡ some e = ground arith in
              switch_all_ends p.cur i members (moved i p) e (moved-IsActivated i p h yes') r
          | inr off ↦
              let r : leave i false not_activated [] (back i (moved i p)) ≡ e = ground arith in
              let w = leave_settled i not_activated (back i (moved i p)) (back-moved i p h).0 in
              subst (EndsWell p.cur) r (
                subst (λ g. EndsWell g (leave i false not_activated [] (back i (moved i p))))
                  (back-moved i p h).1 w)
        ]
]

converge_then_ends :
    (i : Inputs) (members : List Bytes) (p : Partition) (e : Ending)
    → IsSettled p
    → converge_then i members p ≡ some e
    → EndsWell p.cur e
unfolding converge_then
converge_then_ends i members p e h end =
    go (converge members i.rounds (add_all ([], false) i.heads).0 0) refl
  where
    go :
        (v : Verdict)
        → converge members i.rounds (add_all ([], false) i.heads).0 0 ≡ v
        → EndsWell p.cur e
    go (converged u) q =
        let r : move_over i members p ≡ some e = ground arith in move_over_ends i members p e h r
    go (failed f) q =
        let r : leave i false f [] p ≡ e = ground arith in
        subst (EndsWell p.cur) r (leave_settled i f p h)
    go running q = absurd (ground arith)

refused_ends :
    (s : Site) (f : Failure)
    → s.st ≡ none
    → IsSettled s.part
    → IsOpen s.part
    → EndsWell s.part.cur (record { site = s; failure = some f; sent = [] })
refused_ends s f h settled opened = record {
  over = h;
  settled = settled;
  opened = opened;
  keeps = λ k. refl;
  generation = refl;
}

-- A compaction that starts on a site which is settled, open and under no rotation, and that ends,
-- leaves the site so again, whatever its members answer and its calls come to: every key reads as
-- it did, and the generation is the next one if done was broadcast and the old one if it was not.
pub compact-EndsWell :
    (i : Inputs) (parts : ℕ) (part : ℤ) (members : List Bytes) (s : Site) (e : Ending)
    → s.st ≡ none
    → IsSettled s.part
    → IsOpen s.part
    → compact i parts part members s ≡ some e
    → EndsWell s.part.cur e
unfolding compact in_doubt freeze
compact-EndsWell i parts part members s e h settled opened end =
    elim (Bool-cases (ltz part (pos 0) || lez (pos parts) part)) [
      | inl out ↦
          let r : record { site = s; failure = some (no_partition part); sent = [] } ≡ e =
            ground arith in
          subst (EndsWell s.part.cur) r (refused_ends s (no_partition part) h settled opened)
      | inr inside ↦ elim (Bool-cases i.drained) [
        | inl d ↦
            let r : converge_then i members (freeze s.part) ≡ some e = ground arith in
            converge_then_ends i members (freeze s.part) e (ground arith) r
        | inr d ↦
            let r : leave i false not_frozen [] (freeze s.part) ≡ e = ground arith in
            subst (EndsWell s.part.cur) r
              (leave_settled i not_frozen (freeze s.part) (ground arith))
      ]
    ]
