-- ===== src/Rotation/Participant.antt =====
-- The participant's handlers. What the engine reports of the DAG (heads, missing blocks, an empty
-- queue) and what its calls come to are arguments. A handler returns the site and the messages that
-- it sends.
use redgeo.Base.{
  Bytes, bytes_eq, ascii, ℤ, length, Map, lookup, insert, ltb, leb, ◌==◌, if◌then◌else◌, ℕ, ◌-◌,
  ◌*◌, Bool, true, false, not, ◌&&◌, ◌||◌, Option, none, some, List, [], ◌∷◌, bytes_key,
}
use redgeo.Engine.Partition.{
  Live, Partition, in_doubt, stage, activate, commit, roll_back, wait_seed, freeze, unfreeze,
}
use redgeo.Rotation.{
  status, Msg, Site, PState, Kind, phase_prepared, phase_switched, blank_msg, prepared, ready,
  outcome, idle, indoubt, DoubtState, is_prepared,
}

-- What the engine reports of a partition's DAG.
pub record Dag : Type 0 where
  pub heads : List Bytes
  pub missing : List Bytes → List Bytes
  pub quiescent : Bool

-- The outcomes of the engine's calls in one handler, and what the backing store holds.
pub record Calls : Type 0 where
  pub drained : Bool
  pub opened : Bool
  pub activate_gen : Bool
  pub activate_prev : Bool
  pub last_gen : Bool
  pub last_prev : Bool
  pub reopened : Bool
  pub stored : ℕ → Live

answer : Dag → Msg → Msg
answer dag m = record blank_msg {
  kind = prepared;
  round = m.round;
  part = m.part;
  ok = true;
  heads = dag.heads;
  missing = dag.missing m.union;
  busy = not dag.quiescent;
}

unfoldable pub refusal : Kind → Bytes → Msg → Msg
refusal kind reason m = record blank_msg {
  kind = kind;
  round = m.round;
  part = m.part;
  reason = reason;
}

-- onPrepare where no rotation is under way
admit : Calls → Dag → ℕ → Msg → Site → Site × List Msg
unfolding answer refusal
admit calls dag now m s =
    if calls.drained
    then (
      record {
        st = some (record {
          round = m.round;
          coord = m.from;
          phase = phase_prepared;
          genesis = [];
          since = now;
          seeded = false;
          mine = false;
        });
        part = freeze s.part;
      },
      answer dag m ∷ [],
    )
    else (
      record s { part = unfreeze (freeze s.part) },
      refusal prepared (ascii "could not freeze") m ∷ [],
    )

-- onPrepare
unfoldable pub on_prepare : Calls → Dag → ℕ → Msg → Site → Site × List Msg
unfolding admit
on_prepare calls dag now m s = elim s.st [
  | some st ↦
      if bytes_eq st.round m.round && is_prepared st.phase
      then (s, answer dag m ∷ [])
      else (s, refusal prepared (ascii "busy") m ∷ [])
  | none ↦
      if in_doubt s.part
      then (s, refusal prepared (ascii "busy") m ∷ [])
      else admit calls dag now m s
]

-- onSwitch in phase prepared: Stage and Activate; `false` beside the site where one of them failed
go_over : Calls → ℕ → Msg → PState → Site → Site × Bool
go_over calls now m st s =
    let (p, staged) = stage calls.opened true false s.part in
    let (q, activated) = activate calls.activate_gen calls.activate_prev true p in
    if not staged
    then (record s { part = p }, false)
    else if activated
    then (
      record {
        st = some (record st { phase = phase_switched; genesis = m.genesis; since = now });
        part = q;
      },
      true,
    )
    else (
      record s {
        part = (roll_back calls.reopened calls.last_gen calls.last_prev calls.stored q).0;
      },
      false,
    )

-- onSwitch: the site, what it sends at once, and whether it starts to wait for the seed
unfoldable pub on_switch : Calls → ℕ → Msg → Site → Site × List Msg × Bool
unfolding go_over refusal
on_switch calls now m s = elim s.st [
  | none ↦ (s, refusal ready (ascii "not prepared") m ∷ [], false)
  | some st ↦
      if not (bytes_eq st.round m.round)
      then (s, refusal ready (ascii "not prepared") m ∷ [], false)
      else if is_prepared st.phase
      then if (go_over calls now m st s).1
        then ((go_over calls now m st s).0, [], true)
        else ((go_over calls now m st s).0, refusal ready (ascii "failed") m ∷ [], false)
      else (s, [], true)
]

seeded_if : Bytes → Option PState → Option PState
seeded_if round none = none
seeded_if round (some st) =
    if bytes_eq st.round round then some (record st { seeded = true }) else some st

-- The goroutine of onSwitch, when WaitSeed has returned. A round that has ended meanwhile is no
-- longer in the table, and is not touched.
unfoldable pub seed_wait_over : Bool → Msg → Site → Site × List Msg
unfolding seeded_if refusal
seed_wait_over arrived m s =
    if arrived
    then (
      record { st = seeded_if m.round s.st; part = (wait_seed true s.part).0 },
      record blank_msg { kind = ready; round = m.round; part = m.part; ok = true } ∷ [],
    )
    else (s, refusal ready (ascii "timed out") m ∷ [])

-- The engine's part of finish: Commit or Rollback, and then Unfreeze.
unfoldable pub settle : Calls → Bool → Partition → Partition
settle calls true p = unfreeze (commit calls.last_gen calls.last_prev p).0
settle calls false p =
    unfreeze (roll_back calls.reopened calls.last_gen calls.last_prev calls.stored p).0

-- finish; an empty round stands for any
unfoldable pub finish : Calls → Bytes → Bool → Site → Site
unfolding settle
finish calls round commit s = elim s.st [
  | none ↦ s
  | some st ↦
      if length round == 0 || bytes_eq st.round round
      then record { st = none; part = settle calls (commit && not (is_prepared st.phase)) s.part }
      else s
]

-- onStatus
unfoldable pub on_status : Msg → Site → List Msg
on_status m s =
    let doubt : DoubtState = elim s.st [
      | some st ↦ indoubt
      | none ↦ if in_doubt s.part then indoubt else idle
    ] in
    record blank_msg { kind = outcome; part = m.part; gen = s.part.cur.number; state = doubt } ∷ []

-- Every member's reply says that it is in doubt about this generation.
unfoldable pub all_in_doubt : ℕ → Map Bytes Msg → List Bytes → Bool
all_in_doubt mine replies [] = true
all_in_doubt mine replies (id ∷ members) =
    let rest = all_in_doubt mine replies members in
    elim (lookup id replies) [
      | none ↦ false
      | some r ↦ elim r.state [ idle ↦ false | indoubt ↦ (r.gen == mine) && rest ]
    ]

unfoldable pub decide : Calls → Bool → Msg → Site → Site
decide calls everyone m s = elim m.state [
  | idle ↦ finish calls [] (leb s.part.cur.number m.gen) s
  | indoubt ↦ if everyone then finish calls [] false s else s
]

-- onOutcome: `replies` is the partition's table of status replies, `none` before the first status
-- was sent. First the table with the reply, and whether every member is now in doubt
unfoldable pub noted : Msg → Option (Map Bytes Msg) → Option (Map Bytes Msg)
noted m none = none
noted m (some replies) = some (insert m.from m replies)

unfoldable pub everyone_doubts : ℕ → List Bytes → Option (Map Bytes Msg) → Bool
everyone_doubts mine members none = ltb 0 (length members) && all_in_doubt mine [] members
everyone_doubts mine members (some replies) =
    ltb 0 (length members) && all_in_doubt mine replies members

unfoldable pub on_outcome :
    Calls → List Bytes → Msg → Site → Option (Map Bytes Msg) → Site × Option (Map Bytes Msg)
unfolding decide noted everyone_doubts
on_outcome calls members m s replies = elim s.st [
  | none ↦ (s, replies)
  | some st ↦ if is_prepared st.phase then (s, replies) else (
    decide calls (everyone_doubts s.part.cur.number members (noted m replies)) m s,
    noted m replies,
  )
]

-- watchdog, for one partition: abandon an old prepare, or ask the peers about an old switch
pub data Watch : Type 0 where
  leave abandon ask : Watch

unfoldable pub watch : ℕ → ℕ → ℕ → Site → Watch
watch idle_timeout hello_every now s = elim s.st [
  | none ↦ leave
  | some st ↦
      if st.mine
      then leave
      else if is_prepared st.phase
      then if ltb idle_timeout (now - st.since) then abandon else leave
      else if ltb (2 * hello_every) (now - st.since)
      then ask
      else leave
]

-- The site, the partition's table of status replies, and what is sent.
unfoldable pub watchdog :
    Calls → ℤ → ℕ → ℕ → ℕ → Site → Option (Map Bytes Msg) → Site × Option (Map Bytes Msg) × List Msg
unfolding watch
watchdog calls part idle_timeout hello_every now s replies = elim s.st [
  | none ↦ (s, replies, [])
  | some st ↦ elim (watch idle_timeout hello_every now s) [
    | leave ↦ (s, replies, [])
    | abandon ↦ (finish calls st.round false s, replies, [])
    | ask ↦
        (s, some [], record blank_msg { kind = status; part = part; gen = s.part.cur.number } ∷ [])
  ]
]

-- Start, for one partition: a rotation that was under way when the node stopped
unfoldable pub start : ℕ → Partition → Site
start now p = record {
  st =
      if in_doubt p
      then some (record {
        round = [];
        coord = [];
        phase = phase_switched;
        genesis = [];
        since = now;
        seeded = true;
        mine = false;
      })
      else none;
  part = p;
}
