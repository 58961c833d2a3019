-- ===== src/Engine/Partition.antt =====
-- engine/rotation.go: the generations of one partition. A generation's CRDT datastore (go-ds-crdt)
-- is taken by its live entries, and every outcome of a call into it or into the backing store is an
-- argument: `true` where the call succeeds.
use redgeo.Base.{
  Bytes, Map, insert, if◌then◌else◌, ℕ, ◌+◌, Bool, true, false, not, ◌&&◌, Option, none, some, [],
  ◌∷◌, bytes_key,
}
use redgeo.Engine.Gate.{Gate, open_gate, set_gate, set_block_reads, freeze_start}

-- The live entries of a datastore.
abbrev pub Live : Type 0
Live = Map Bytes Bytes

-- One open generation: its number and its datastore.
pub record Generation : Type 0 where
  pub number : ℕ
  pub live : Live

-- What the backing store keeps of the generations: the gen key and the prev key.
pub record Disk : Type 0 where
  pub gen : Option ℕ
  pub prev : Option ℕ

-- `prev` is hasPrev with prevGen, and `old` is oldDS: it is absent after a restart.
pub record Partition : Type 0 where
  pub cur : Generation
  pub staged : Option Generation
  pub prev : Option ℕ
  pub old : Option Live
  pub gate : Gate
  pub disk : Disk

unfoldable pub in_doubt : Partition → Bool
in_doubt p = elim p.prev [ some n ↦ true | none ↦ elim p.staged [ some g ↦ true | none ↦ false ] ]

-- persistGen: two writes, the second only after the first; whether each succeeds, and the disk
-- that they leave.
unfoldable pub persist_gen : Bool → Bool → Partition → Disk × Bool
persist_gen false prev_ok p = (p.disk, false)
persist_gen true false p = (record p.disk { gen = some p.cur.number }, false)
persist_gen true true p = (record { gen = some p.cur.number; prev = p.prev }, true)

-- restoreGen, at a start: the generation of the disk, and frozen if a rotation was under way. Its
-- datastore is opened from the backing store.
from_disk : Disk → ℕ
from_disk d = elim d.gen [ none ↦ 0 | some n ↦ n ]

unfoldable pub restore_gen : Disk → (ℕ → Live) → Partition
unfolding from_disk
restore_gen d stored = record {
  cur = record { number = from_disk d; live = stored (from_disk d) };
  staged = none;
  prev = d.prev;
  old = none;
  gate = elim d.prev [ none ↦ open_gate | some n ↦ set_gate true false open_gate ];
  disk = d;
}

-- The batch that seeds a generation: one Put for each entry of the query.
unfoldable pub seed_from : Live → Live
seed_from [] = []
seed_from ((k, v) ∷ live) = insert k v (seed_from live)

-- Stage. `opened` and `copied` are the outcomes of crdt.New and of the query with its batch.
-- `false` beside the partition is an error.
unfoldable pub stage : Bool → Bool → Bool → Partition → Partition × Bool
stage opened copied seed p =
    if in_doubt p
    then (p, false)
    else if not opened
    then (p, false)
    else if seed && not copied
    then (p, false)
    else (
      record p {
        staged = some (record {
          number = p.cur.number + 1;
          live = if seed then seed_from p.cur.live else [];
        });
      },
      true,
    )

switch_to : Generation → Partition → Partition
switch_to next p = record p {
  cur = next;
  staged = none;
  prev = some p.cur.number;
  old = some p.cur.live;
}

blocked : Bool → Gate → Gate
blocked true g = set_block_reads true g
blocked false g = g

persisted : Bool → Bool → Partition → Partition × Bool
persisted gen_ok prev_ok p =
    let (d, ok) = persist_gen gen_ok prev_ok p in (record p { disk = d }, ok)

-- Activate. `gen_ok` and `prev_ok` are the outcomes of persistGen's writes.
unfoldable pub activate : Bool → Bool → Bool → Partition → Partition × Bool
unfolding switch_to blocked persisted
activate gen_ok prev_ok wait_seed p = elim p.staged [
  | none ↦ (p, false)
  | some next ↦
      persisted gen_ok prev_ok (record (switch_to next p) { gate = blocked wait_seed p.gate })
]

-- WaitSeed, when it returns: the seed has come, or not.
unfoldable pub wait_seed : Bool → Partition → Partition × Bool
wait_seed true p = (record p { gate = set_block_reads false p.gate }, true)
wait_seed false p = (p, false)

-- Commit
unfoldable pub commit : Bool → Bool → Partition → Partition × Bool
unfolding persisted
commit gen_ok prev_ok p = persisted gen_ok prev_ok (record p { prev = none; old = none })

-- the last lines of Rollback: the gate is kept frozen or not, and reads pass
readable : Partition × Bool → Partition × Bool
readable (p, ok) = (record p { gate = set_gate p.gate.frozen false p.gate }, ok)

-- Rollback. `reopened` is the outcome of opening the previous generation, needed after a restart,
-- where it is read from the backing store; only that error leaves before the gate is set.
unfoldable pub roll_back : Bool → Bool → Bool → (ℕ → Live) → Partition → Partition × Bool
unfolding persisted readable
roll_back reopened gen_ok prev_ok stored p = elim p.staged [
  | some g ↦ readable (persisted gen_ok prev_ok (record p { staged = none }))
  | none ↦ elim p.prev [
    | none ↦ readable (persisted gen_ok prev_ok p)
    | some n ↦ elim p.old [
      | some live ↦ readable (
          persisted gen_ok prev_ok
            (record p { cur = record { number = n; live = live }; prev = none; old = none }))
      | none ↦
          if reopened
          then readable (
              persisted gen_ok prev_ok (record p {
                cur = record { number = n; live = stored n };
                prev = none;
                old = none;
              }))
          else (p, false)
    ]
  ]
]

-- Freeze, when it returns, and Unfreeze. A freeze that fails has set the flag all the same.
unfoldable pub freeze : Partition → Partition
freeze p = record p { gate = freeze_start p.gate }

unfoldable pub unfreeze : Partition → Partition
unfreeze p = record p { gate = set_gate false false p.gate }

-- The outcomes of one rotation's calls, in the order in which they are made.
pub record Outcomes : Type 0 where
  pub drained : Bool
  pub opened : Bool
  pub copied : Bool
  pub activate_gen : Bool
  pub activate_prev : Bool
  pub last_gen : Bool
  pub last_prev : Bool

-- RotatePartition: Rollback's or Commit's writes come last.
committed : Outcomes → (ℕ → Live) → Partition × Bool → Partition × Bool
committed o stored (p, true) = commit o.last_gen o.last_prev p
committed o stored (p, false) = ((roll_back true o.last_gen o.last_prev stored p).0, false)

activated : Outcomes → (ℕ → Live) → Partition × Bool → Partition × Bool
unfolding committed
activated o stored (p, true) = committed o stored (activate o.activate_gen o.activate_prev false p)
activated o stored (p, false) = (p, false)

unfrozen : Partition × Bool → Partition × Bool
unfrozen (p, ok) = (unfreeze p, ok)

unfoldable pub rotate_partition : Outcomes → (ℕ → Live) → Partition → Partition × Bool
unfolding activated unfrozen
rotate_partition o stored p =
    let f = freeze p in
    if o.drained
    then unfrozen (activated o stored (stage o.opened o.copied true f))
    else (unfreeze f, false)
