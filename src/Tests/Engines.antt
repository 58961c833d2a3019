-- ===== src/Tests/Engines.antt =====
-- engine: rotations of a partition with one entry, and its fence.
use redgeo.Base.{ascii, lookup, ℕ, ◌≡◌, refl, true, false, none, some, [], ◌∷◌, arith, bytes_key}
use redgeo.Engine.Gate.{Gate, open_gate, begin_write, new_view, pump, broadcast}
use redgeo.Engine.Gate.Fence.{Fence, start, Step, admit, here, next, IsFenced, Reach-IsFenced}
use redgeo.Engine.Gate.Broadcast.{pump-broadcast}
use redgeo.Engine.Partition.{
  Live, Generation, Partition, Outcomes, rotate_partition, restore_gen, activate, in_doubt,
}
use redgeo.Engine.Rollback.{IsSettled, rotate_partition_safe, restore_gen-rotate_partition}
use redgeo.Engine.Restart.{restore_gen-activate}

abbrev live : Live
live = (ascii "k", ascii "v") ∷ []

abbrev part : Partition
part = record {
  cur = record { number = 3; live = live };
  staged = none;
  prev = none;
  old = none;
  gate = open_gate;
  disk = record { gen = some 3; prev = none };
}

part-IsSettled : IsSettled part
part-IsSettled = record { none_staged = refl; no_previous = refl; no_old = refl }

abbrev all_well : Outcomes
all_well = record {
  drained = true;
  opened = true;
  copied = true;
  activate_gen = true;
  activate_prev = true;
  last_gen = true;
  last_prev = true;
}

abbrev half_written : Outcomes
half_written = record all_well { activate_prev = false }

abbrev nothing : ℕ → Live
nothing n = []

rotate_partition_safe_example :
    IsSettled (rotate_partition half_written nothing part).0
    × ((rotate_partition half_written nothing part).0.gate.frozen ≡ false)
    × ((rotate_partition half_written nothing part).0.gate.block_reads ≡ false)
    × (lookup (ascii "k") (rotate_partition half_written nothing part).0.cur.live
        ≡ lookup (ascii "k") live)
    × ((rotate_partition half_written nothing part).0.cur.number ≡ 3)
    × ((rotate_partition half_written nothing part).1 ≡ false)
rotate_partition_safe_example =
    rotate_partition_safe half_written nothing part (ascii "k") part-IsSettled

reports : (rotate_partition all_well nothing part).1 ≡ true
reports = (rotate_partition_safe all_well nothing part (ascii "k") part-IsSettled).5

restore_gen-rotate_partition_example :
    (let q = restore_gen (rotate_partition all_well nothing part).0.disk nothing in
      (q.cur.number ≡ 4) × IsSettled q × (q.gate.frozen ≡ false))
restore_gen-rotate_partition_example =
    restore_gen-rotate_partition all_well nothing part part-IsSettled reports

abbrev next_gen : Generation
next_gen = record { number = 4; live = live }

abbrev staged_part : Partition
staged_part = record part { staged = some next_gen }

restore_gen-activate_example :
    (let q = restore_gen (activate true false true staged_part).0.disk nothing in
      (q.cur.number ≡ 4) × (in_doubt q ≡ false) × (q.gate.frozen ≡ false))
restore_gen-activate_example =
    restore_gen-activate staged_part next_gen false true nothing refl refl

abbrev one_write : Gate
one_write = record { frozen = false; block_reads = false; inflight = 1 }

abbrev writing_one : Fence
writing_one = record { gate = one_write; writing = 1; waiting = 0; drained = false }

admitted : Step start writing_one
unfolding begin_write
admitted = admit start one_write refl

Reach-IsFenced_example : IsFenced writing_one
Reach-IsFenced_example = Reach-IsFenced (next here admitted)

pump-broadcast_example :
    pump (broadcast (ascii "h") (new_view 3)).1 (some (new_view 4)) ≡ some (new_view 4)
pump-broadcast_example = pump-broadcast (ascii "h") (new_view 3) (new_view 4) (omega arith)
