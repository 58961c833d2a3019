-- ===== src/Engine/Rollback.antt =====
-- A rotation keeps the live entries, and an abandoned one leaves the partition as it was.
use redgeo.Base.{
  Bytes, lookup, lookup-insert, if◌then◌else◌, ℕ, ◌+◌, ◌≡◌, refl, Bool, true, false, ◌&&◌, none, [],
  ◌∷◌, arith, bytes_key,
}
use redgeo.Engine.Gate.{set_gate, freeze_start}
use redgeo.Engine.Partition.{
  restore_gen, Live, Partition, in_doubt, persist_gen, seed_from, stage, activate, commit,
  roll_back, freeze, unfreeze, Outcomes, rotate_partition,
}

pub lookup-seed_from : (k : Bytes) (live : Live) → lookup k (seed_from live) ≡ lookup k live
unfolding seed_from lookup
lookup-seed_from k [] = refl
lookup-seed_from k ((j, v) ∷ live) =
    rw (lookup-insert j k v (seed_from live)) (ground (arith, lookup-seed_from k live))

-- No rotation is under way.
pub record IsSettled (p : Partition) : Type 0 where
  pub none_staged : p.staged ≡ none
  pub no_previous : p.prev ≡ none
  pub no_old : p.old ≡ none

-- The calls before Commit all succeed.
abbrev pub switches : Outcomes → Bool
switches o = o.drained && o.opened && o.copied && o.activate_gen && o.activate_prev

-- RotatePartition on a settled partition, whatever its calls into the datastores and the backing
-- store come to: it ends settled, with the gate open for writes and reads, and every key reads as
-- it did. The generation is the next one if all calls before Commit succeed, and the old one
-- otherwise; success is reported if Commit's writes succeed too.
pub rotate_partition_safe :
    (o : Outcomes) (stored : ℕ → Live) (p : Partition) (k : Bytes)
    → IsSettled p
    → IsSettled (rotate_partition o stored p).0
      × ((rotate_partition o stored p).0.gate.frozen ≡ false)
      × ((rotate_partition o stored p).0.gate.block_reads ≡ false)
      × (lookup k (rotate_partition o stored p).0.cur.live ≡ lookup k p.cur.live)
      × ((rotate_partition o stored p).0.cur.number
          ≡ (if switches o then p.cur.number + 1 else p.cur.number))
      × ((rotate_partition o stored p).1 ≡ (switches o && o.last_gen && o.last_prev))
unfolding rotate_partition stage in_doubt activate commit roll_back persist_gen freeze unfreeze
    set_gate freeze_start
rotate_partition_safe o stored p k h = (
  ground arith,
  ground arith,
  ground arith,
  ground (arith, lookup-seed_from k p.cur.live),
  ground arith,
  ground arith,
)

-- After a rotation that reports success a restart opens the new generation, not frozen and not in
-- doubt.
pub restore_gen-rotate_partition :
    (o : Outcomes) (stored : ℕ → Live) (p : Partition)
    → IsSettled p
    → (rotate_partition o stored p).1 ≡ true
    → (let q = restore_gen (rotate_partition o stored p).0.disk stored in
        (q.cur.number ≡ p.cur.number + 1) × IsSettled q × (q.gate.frozen ≡ false))
unfolding rotate_partition stage in_doubt activate commit roll_back persist_gen freeze unfreeze
    set_gate freeze_start restore_gen
restore_gen-rotate_partition o stored p h e = (ground arith, ground arith, ground arith)
