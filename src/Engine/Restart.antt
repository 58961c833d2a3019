-- ===== src/Engine/Restart.antt =====
-- A node that stops in the middle of a rotation, and starts again from what the disk holds.
use redgeo.Base.{ℕ, ◌≡◌, Bool, true, none, some, arith}
use redgeo.Engine.Gate.{set_gate}
use redgeo.Engine.Partition.{
  Live, Generation, Partition, in_doubt, persist_gen, restore_gen, activate,
}

-- A node that stops after Activate has made its first write, where nothing was pending before,
-- starts on the staged generation. It starts frozen and in doubt, to be settled with its peers,
-- exactly if the second write was made too; after the first alone it starts open and in no doubt.
pub restore_gen-activate :
    (p : Partition) (next : Generation) (prev_ok wait : Bool) (stored : ℕ → Live)
    → p.staged ≡ some next
    → p.disk.prev ≡ none
    → (let q = restore_gen (activate true prev_ok wait p).0.disk stored in
        (q.cur.number ≡ next.number) × (in_doubt q ≡ prev_ok) × (q.gate.frozen ≡ prev_ok))
unfolding restore_gen activate persist_gen in_doubt set_gate
restore_gen-activate p next prev_ok wait stored h k = (ground arith, ground arith, ground arith)
