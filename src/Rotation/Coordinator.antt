-- ===== src/Rotation/Coordinator.antt =====
-- The coordinator: Compact for one partition. Each pass of a loop is given by what it meets: the
-- replies that collect has gathered, the heads and missing blocks of this replica's DAG, whether the
-- deadline has passed and whether the context was cancelled.
use redgeo.Base.{
  Bytes, ℤ, ltz, lez, pos, length, Map, lookup, contains, ltb, leb, ◌==◌, if◌then◌else◌, ℕ, ◌+◌,
  Bool, true, false, not, ◌&&◌, ◌||◌, Option, none, some, List, [], ◌∷◌, ◌++◌, bytes_key,
}
use redgeo.Engine.Partition.{
  Live, Partition, in_doubt, stage, activate, commit, roll_back, freeze, unfreeze,
}
use redgeo.Rotation.{Msg, Site, Kind, abort, done}
use redgeo.Rotation.Participant.{Dag}

pub data Failure : Type 0 where
  busy cancelled not_frozen not_staged not_activated not_committed : Failure
  no_partition : ℤ → Failure
  refused : Bytes → Failure
  unavailable : List Bytes → Failure
  not_converged : List Bytes → Failure
  failed_to_switch : Bytes → Failure

-- One pass of the loop of phase 1.
pub record Round : Type 0 where
  pub collected : Bool
  pub prepared : Map Bytes Msg
  pub dag : Dag
  pub late : Bool
  pub alive : Bool

-- add: the set, and whether the element is new
unfoldable pub add : List Bytes → Bytes → List Bytes × Bool
add set x = if contains set x then (set, false) else (x ∷ set, true)

unfoldable pub add_all : List Bytes × Bool → List Bytes → List Bytes × Bool
unfolding add
add_all (set, grew) [] = (set, grew)
add_all (set, grew) (x ∷ xs) = let (set', new) = add set x in add_all (set', new || grew) xs

-- What the loop over the members finds in the replies.
pub record Tally : Type 0 where
  pub missing : List Bytes
  pub behind : List Bytes
  pub rejected : Option Bytes
  pub union : List Bytes
  pub grew : Bool

unfoldable pub tally_reply : Bytes → Option Msg → Tally → Tally
tally_reply id none t = record t { missing = t.missing ++ id ∷ [] }
tally_reply id (some r) t =
    let (union, grew) = add_all (t.union, t.grew) r.heads in
    if not r.ok
    then record t { rejected = some id }
    else if ltb 0 (length r.missing) || r.busy
    then record t { behind = t.behind ++ id ∷ []; union = union; grew = grew }
    else record t { union = union; grew = grew }

unfoldable pub tally : Map Bytes Msg → List Bytes → Tally → Tally
unfolding tally_reply
tally replies [] t = t
tally replies (id ∷ members) t = tally replies members (tally_reply id (lookup id replies) t)

pub data Verdict : Type 0 where
  converged : List Bytes → Verdict
  failed : Failure → Verdict
  -- the passes that are given do not finish the loop
  running : Verdict

unfoldable pub self_behind : Dag → List Bytes → Bool
self_behind dag union = ltb 0 (length (dag.missing union)) || not dag.quiescent

unfoldable pub tally_round : List Bytes → Round → List Bytes → Tally
tally_round members r union =
    let (union', grew) = add_all (union, false) r.dag.heads in
    tally r.prepared members
      (record { missing = []; behind = []; rejected = none; union = union'; grew = grew })

-- Every member has answered, no replica lacks a block, and no new head has come up.
unfoldable pub is_clean : Round → Tally → Bool
is_clean r t =
    length t.missing == 0 && length t.behind == 0 && not t.grew && not (self_behind r.dag t.union)

after_deadline : Tally → Failure
after_deadline t =
    if ltb 0 (length t.missing) then unavailable t.missing else not_converged t.behind

-- The loop of phase 1: `stable` counts the clean passes in a row.
unfoldable pub converge : List Bytes → List Round → List Bytes → ℕ → Verdict
unfolding after_deadline
converge members [] union stable = running
converge members (r ∷ rounds) union stable =
    let t = tally_round members r union in
    elim r.collected [
      | false ↦ failed cancelled
      | true ↦ elim t.rejected [
        | some id ↦ failed (refused id)
        | none ↦ elim (is_clean r t) [
          | true ↦ elim (leb 2 (stable + 1)) [
            | true ↦ converged t.union
            | false ↦ converge members rounds t.union (stable + 1)
          ]
          | false ↦ elim r.late [
            | true ↦ failed (after_deadline t)
            | false ↦ elim r.alive [
              | true ↦ converge members rounds t.union 0
              | false ↦ failed cancelled
            ]
          ]
        ]
      ]
    ]

-- One pass of the loop of phase 2: the replies gathered so far, the earlier passes' among them.
pub record SwitchRound : Type 0 where
  pub collected : Bool
  pub ready : Map Bytes Msg
  pub late : Bool
  pub alive : Bool

-- Whether every member is ready; the first failed reply ends the loop.
unfoldable pub all_ready : Map Bytes Msg → List Bytes → Bool × Option Bytes
all_ready replies [] = (true, none)
all_ready replies (id ∷ members) =
    let (rest, failure) = all_ready replies members in
    elim (lookup id replies) [
      | none ↦ (false, failure)
      | some r ↦ if r.ok then (rest, failure) else (rest, some id)
    ]

pub data SwitchVerdict : Type 0 where
  switched : SwitchVerdict
  switch_failed : Failure → SwitchVerdict
  switching : SwitchVerdict

unfoldable pub await_ready : List Bytes → List SwitchRound → SwitchVerdict
await_ready members [] = switching
await_ready members (r ∷ rounds) =
    let (ready, failure) = all_ready r.ready members in
    elim r.collected [
      | false ↦ switch_failed cancelled
      | true ↦ elim failure [
        | some id ↦ switch_failed (failed_to_switch id)
        | none ↦ elim ready [
          | true ↦ switched
          | false ↦ elim r.late [
            | true ↦ switch_failed (unavailable [])
            | false ↦ elim r.alive [
              | true ↦ await_ready members rounds
              | false ↦ switch_failed cancelled
            ]
          ]
        ]
      ]
    ]

-- What a compaction meets, in order.
pub record Inputs : Type 0 where
  pub now : ℕ
  pub round : Bytes
  pub heads : List Bytes
  pub drained : Bool
  pub rounds : List Round
  pub opened : Bool
  pub copied : Bool
  pub activate_gen : Bool
  pub activate_prev : Bool
  pub switch_rounds : List SwitchRound
  pub last_gen : Bool
  pub last_prev : Bool
  pub reopened : Bool
  pub stored : ℕ → Live

-- How a compaction ends: the site, the error, and the messages that are broadcast at the end.
pub record Ending : Type 0 where
  pub site : Site
  pub failure : Option Failure
  pub sent : List Kind

unfoldable pub three : Kind → List Kind
three k = k ∷ k ∷ k ∷ []

unfoldable pub back : Inputs → Partition → Partition
back i p = (roll_back i.reopened i.last_gen i.last_prev i.stored p).0

-- the deferred function: after an error it broadcasts abort and takes an activated generation back
unfoldable pub leave : Inputs → Bool → Failure → List Kind → Partition → Ending
unfolding three back
leave i activated e sent p = record {
  site = record { st = none; part = unfreeze (if activated then back i p else p) };
  failure = some e;
  sent = sent ++ three abort;
}

-- phase 3
unfoldable pub commit_all : Inputs → Partition → Ending
unfolding leave
commit_all i p =
    let (q, ok) = commit i.last_gen i.last_prev p in
    if ok
    then record {
      site = record { st = none; part = unfreeze q };
      failure = none;
      sent = three done;
    }
    else leave i false not_committed (three done) q

-- phase 2, from the activated generation on; `none` where the passes do not finish the loop
unfoldable pub switch_all : Inputs → List Bytes → Partition → Option Ending
unfolding commit_all leave
switch_all i members p = elim (await_ready members i.switch_rounds) [
  | switched ↦ some (commit_all i p)
  | switch_failed e ↦ some (leave i true e [] p)
  | switching ↦ none
]

-- phase 2: Stage with the seed, and Activate
unfoldable pub move_over : Inputs → List Bytes → Partition → Option Ending
unfolding switch_all leave back
move_over i members p =
    let (q, staged) = stage i.opened i.copied true p in
    let (r, activated) = activate i.activate_gen i.activate_prev false q in
    if not staged
    then some (leave i false not_staged [] q)
    else if activated
    then switch_all i members r
    else some (leave i false not_activated [] (back i r))

-- phase 1, and what follows
unfoldable pub converge_then : Inputs → List Bytes → Partition → Option Ending
unfolding move_over leave
converge_then i members p = elim (converge members i.rounds (add_all ([], false) i.heads).0 0) [
  | converged union ↦ move_over i members p
  | failed e ↦ some (leave i false e [] p)
  | running ↦ none
]

-- Compact, of partition `part` of `parts`
unfoldable pub compact : Inputs → ℕ → ℤ → List Bytes → Site → Option Ending
unfolding converge_then leave
compact i parts part members s =
    if ltz part (pos 0) || lez (pos parts) part
    then some (record { site = s; failure = some (no_partition part); sent = [] })
    else elim s.st [
      | some st ↦ some (record { site = s; failure = some busy; sent = [] })
      | none ↦
          if in_doubt s.part
          then some (record { site = s; failure = some busy; sent = [] })
          else if i.drained
          then converge_then i members (freeze s.part)
          else some (leave i false not_frozen [] (freeze s.part))
    ]
