-- ===== src/Rotation/Invariant.antt =====
-- What holds of a site between the messages that it handles.
use redgeo.Base.{
  Bytes, bytes_eq, ℤ, length, Map, leb, ◌==◌, if◌then◌else◌, Bool-cases, Option-cases, ℕ, ◌≡◌, refl,
  ◌≢◌, ◌⊎◌, inl, inr, Bool, true, false, not, ◌&&◌, ◌||◌, Option, none, some, List, [], ◌∷◌, arith,
}
use mathlib.Core.Path.{subst}
use redgeo.Engine.Gate.{set_gate, set_block_reads, freeze_start}
use redgeo.Engine.Partition.{
  Generation, Partition, in_doubt, stage, activate, commit, roll_back, wait_seed, freeze, unfreeze,
  persist_gen,
}
use redgeo.Rotation.{
  DoubtState, idle, indoubt, Msg, Site, PState, phase_prepared, phase_switched, is_prepared,
}
use redgeo.Rotation.Participant.{
  Calls, Dag, on_prepare, on_switch, seed_wait_over, finish, on_outcome, watchdog, decide, noted,
  everyone_doubts, Watch, watch, leave, abandon, ask,
}

-- No generation is staged and none is kept.
pub record IsSettled (p : Partition) : Type 0 where
  pub none_staged : p.staged ≡ none
  pub no_previous : p.prev ≡ none

-- Writes are held back, and the generation before this one is kept.
pub record IsHeld (old : Generation) (p : Partition) : Type 0 where
  pub none_staged : p.staged ≡ none
  pub previous : p.prev ≡ some old.number
  pub kept : p.old ≡ some old.live
  pub frozen : p.gate.frozen ≡ true

-- Writes and reads pass.
pub record IsOpen (p : Partition) : Type 0 where
  pub writable : p.gate.frozen ≡ false
  pub readable : p.gate.block_reads ≡ false

-- A participant on which no rotation is under way is settled and open; one that is prepared is
-- settled, lets reads pass and holds writes, and both are on the generation `old`; one that has
-- switched holds writes, and keeps the generation `old`.
abbrev pub Coherent : Generation → Site → Type 0
Coherent old s = elim s.st [
  | none ↦ IsSettled s.part × IsOpen s.part × (s.part.cur ≡ old)
  | some st ↦ elim st.phase [
    | phase_prepared ↦
        IsSettled s.part
        × (s.part.gate.frozen ≡ true)
        × (s.part.gate.block_reads ≡ false)
        × (s.part.cur ≡ old)
    | phase_switched ↦ IsHeld old s.part
  ]
]

pub on_prepare-Coherent :
    (old : Generation) (calls : Calls) (dag : Dag) (now : ℕ) (m : Msg) (s : Site)
    → Coherent old s
    → Coherent old (on_prepare calls dag now m s).0
unfolding on_prepare freeze unfreeze freeze_start set_gate
on_prepare-Coherent old calls dag now m s h = ground arith

pub on_switch-Coherent :
    (old : Generation) (calls : Calls) (now : ℕ) (m : Msg) (s : Site)
    → Coherent old s
    → Coherent old (on_switch calls now m s).0
unfolding on_switch stage activate roll_back persist_gen in_doubt set_gate set_block_reads
on_switch-Coherent old calls now m s h = ground arith

pub seed_wait_over-Coherent :
    (old : Generation) (arrived : Bool) (m : Msg) (s : Site)
    → Coherent old s
    → Coherent old (seed_wait_over arrived m s).0
unfolding seed_wait_over wait_seed set_block_reads
seed_wait_over-Coherent old arrived m s h = ground arith

-- finish, on a coherent site with this round: the rotation is over, the partition is settled and open, and it
-- is on the new generation if the outcome is a commit and the site had switched, and otherwise back
-- on the old one, entries and all.
pub finish_outcome :
    (old : Generation) (calls : Calls) (round : Bytes) (commits : Bool) (s : Site) (st : PState)
    → Coherent old s
    → s.st ≡ some st
    → (length round == 0 || bytes_eq st.round round) ≡ true
    → (let s' = finish calls round commits s in
        (s'.st ≡ none)
        × IsSettled s'.part
        × IsOpen s'.part
        × (s'.part.cur ≡ (if commits && not (is_prepared st.phase) then s.part.cur else old)))
unfolding finish commit roll_back unfreeze persist_gen set_gate
finish_outcome old calls round commits s st h e k =
    (ground arith, ground arith, ground arith, ground arith)

-- The generation that a site falls back on, after finish.
pub base_after : Generation → Site → Generation
base_after old s = elim s.st [ none ↦ s.part.cur | some st ↦ old ]

pub finish-Coherent :
    (old : Generation) (calls : Calls) (round : Bytes) (commits : Bool) (s : Site)
    → Coherent old s
    → Coherent (base_after old (finish calls round commits s)) (finish calls round commits s)
unfolding finish commit roll_back unfreeze persist_gen set_gate base_after
finish-Coherent old calls round commits s h = ground arith

abbrev Falls : Site → Type 0
Falls s = (base : Generation) × Coherent base s

Watch-cases : (w : Watch) → (w ≡ abandon) ⊎ (w ≢ abandon)
Watch-cases leave = inr (λ e. cc)
Watch-cases abandon = inl refl
Watch-cases ask = inr (λ e. cc)

decide-Coherent :
    (old : Generation) (calls : Calls) (everyone : Bool) (m : Msg) (s : Site)
    → Coherent old s
    → Falls (decide calls everyone m s)
unfolding decide finish
decide-Coherent old calls everyone m s h = go m.state refl
  where
    go : (d : DoubtState) → m.state ≡ d → Falls (decide calls everyone m s)
    go idle e =
        let b = leb s.part.cur.number m.gen in
        rw (e, decide) (base_after old (finish calls [] b s), finish-Coherent old calls [] b s h)
    go indoubt e = elim (Bool-cases everyone) [
      | inl yes' ↦
          rw (e, yes', decide)
            (base_after old (finish calls [] false s), finish-Coherent old calls [] false s h)
      | inr no' ↦ rw (e, no', decide) (old, h)
    ]

pub on_outcome-Coherent :
    (old : Generation) (calls : Calls) (members : List Bytes) (m : Msg)
    (replies : Option (Map Bytes Msg)) (s : Site)
    → Coherent old s
    → Falls (on_outcome calls members m s replies).0
unfolding on_outcome everyone_doubts
on_outcome-Coherent old calls members m replies s h =
    let e = everyone_doubts s.part.cur.number members (noted m replies) in
    elim (Option-cases s.st) [
      | inl p ↦ rw (p, on_outcome) (old, h)
      | inr (st, p) ↦ elim (Bool-cases (is_prepared st.phase)) [
        | inl q ↦ subst Falls (unchanged st p q) (old, h)
        | inr q ↦ subst Falls (decided st p q) (decide-Coherent old calls e m s h)
      ]
    ]
  where
    unchanged :
        (st : PState)
        → s.st ≡ some st
        → is_prepared st.phase ≡ true
        → s ≡ (on_outcome calls members m s replies).0
    unchanged st p q = ground arith

    decided :
        (st : PState)
        → s.st ≡ some st
        → is_prepared st.phase ≡ false
        → decide calls (everyone_doubts s.part.cur.number members (noted m replies)) m s
          ≡ (on_outcome calls members m s replies).0
    decided st p q = ground arith

watchdog-Coherent :
    (old : Generation) (calls : Calls) (part : ℤ) (idle_timeout hello_every now : ℕ) (s : Site)
    (replies : Option (Map Bytes Msg))
    → Coherent old s
    → Falls (watchdog calls part idle_timeout hello_every now s replies).0
unfolding watchdog base_after
watchdog-Coherent old calls part idle_timeout hello_every now s replies h =
    elim (Option-cases s.st) [
      | inl p ↦ subst Falls (none_left p) (old, h)
      | inr (st, p) ↦ elim (Watch-cases (watch idle_timeout hello_every now s)) [
        | inl q ↦ subst Falls (abandoned st p q) (
          base_after old (finish calls st.round false s),
          finish-Coherent old calls st.round false s h,
        )
        | inr q ↦ subst Falls (left st p q) (old, h)
      ]
    ]
  where
    none_left : s.st ≡ none → s ≡ (watchdog calls part idle_timeout hello_every now s replies).0
    none_left p = ground arith

    abandoned :
        (st : PState)
        → s.st ≡ some st
        → watch idle_timeout hello_every now s ≡ abandon
        → finish calls st.round false s
          ≡ (watchdog calls part idle_timeout hello_every now s replies).0
    abandoned st p q = ground arith

    left :
        (st : PState)
        → s.st ≡ some st
        → watch idle_timeout hello_every now s ≢ abandon
        → s ≡ (watchdog calls part idle_timeout hello_every now s replies).0
    left st p q = ground arith

-- One event at a site: a message that `handle` passes to a handler, the end of a wait for the seed,
-- or a tick of the watchdog.
pub data Event : Type 0 where
  got_prepare : Calls → Dag → ℕ → Msg → Event
  got_switch : Calls → ℕ → Msg → Event
  seed_over : Bool → Msg → Event
  got_done : Calls → Msg → Event
  got_abort : Calls → Msg → Event
  got_outcome : Calls → List Bytes → Msg → Option (Map Bytes Msg) → Event
  tick : Calls → ℤ → ℕ → ℕ → ℕ → Option (Map Bytes Msg) → Event

pub step : Event → Site → Site
step (got_prepare calls dag now m) s = (on_prepare calls dag now m s).0
step (got_switch calls now m) s = (on_switch calls now m s).0
step (seed_over arrived m) s = (seed_wait_over arrived m s).0
step (got_done calls m) s = finish calls m.round true s
step (got_abort calls m) s = finish calls m.round false s
step (got_outcome calls members m replies) s = (on_outcome calls members m s replies).0
step (tick calls part idle_timeout hello_every now replies) s =
    (watchdog calls part idle_timeout hello_every now s replies).0

pub run_events : List Event → Site → Site
run_events [] s = s
run_events (e ∷ es) s = run_events es (step e s)

step-Coherent :
    (e : Event) (old : Generation) (s : Site)
    → Coherent old s
    → (base : Generation) × Coherent base (step e s)
unfolding step
step-Coherent (got_prepare calls dag now m) old s h =
    (old, on_prepare-Coherent old calls dag now m s h)
step-Coherent (got_switch calls now m) old s h = (old, on_switch-Coherent old calls now m s h)
step-Coherent (seed_over arrived m) old s h = (old, seed_wait_over-Coherent old arrived m s h)
step-Coherent (got_done calls m) old s h =
    (base_after old (finish calls m.round true s), finish-Coherent old calls m.round true s h)
step-Coherent (got_abort calls m) old s h =
    (base_after old (finish calls m.round false s), finish-Coherent old calls m.round false s h)
step-Coherent (got_outcome calls members m replies) old s h =
    on_outcome-Coherent old calls members m replies s h
step-Coherent (tick calls part idle_timeout hello_every now replies) old s h =
    watchdog-Coherent old calls part idle_timeout hello_every now s replies h

-- Whatever messages, ends of waits and ticks a site meets, in whatever order, and whatever the
-- engine's calls come to, it stays coherent: it holds writes exactly while a rotation is under way,
-- and while one is it can fall back.
pub run_events-Coherent :
    (es : List Event) (old : Generation) (s : Site)
    → Coherent old s
    → (base : Generation) × Coherent base (run_events es s)
unfolding run_events
run_events-Coherent [] old s h = (old, h)
run_events-Coherent (e ∷ es) old s h =
    let (base, h') = step-Coherent e old s h in run_events-Coherent es base (step e s) h'
