-- ===== src/StrRepo/Stored.antt =====
-- crdtstore/store.go and meta.go as strings use them, over a node's datastore.
use redgeo.Base.{Bytes, ℤ, ℕ, ◌≡◌, refl, Bool, false, Option, []}
use redgeo.Exec.{Exec, ok}
use redgeo.Keyspace.Node.{
  Node, read_meta, read_slots, write_slot, node_query, node_put, slots_of, winning_meta,
}
use redgeo.Keyspace.Lawful.{LawfulBackend}
use redgeo.Keys.{meta_base}
use redgeo.Hlc
use redgeo.Meta.{Meta}
use redgeo.Slot.{encode_slot}
use redgeo.Txn
use redgeo.Txn.{Backend}
use redgeo.StrRepo.{Registers}
use redgeo.StrRepo.Incr.{ReadsMeta}

module _ {D B : Type 0} (be : Backend D B) (new_key : Bytes → Bytes) (replica : Bytes) (db : ℤ)
    (other_live : Bytes → Meta → Exec (Node D) Bool) where
  unfoldable pub registers : Registers (Node D)
  unfolding read_meta read_slots write_slot
  registers = record {
    read_meta = read_meta be new_key replica db other_live;
    read_slots = read_slots be;
    write_slot = write_slot be;
    now_ms = λ n. n.wall_ms;
  }

  module _ {content : D → Bytes → Option Bytes} (lawful : LawfulBackend be content) where
    -- the metadata of a key
    unfoldable pub meta_in : Node D → Bytes → Option Meta
    meta_in n key = winning_meta (slots_of [] (lawful.listed n.eng (meta_base db key) false))

    queried :
        (p : Bytes) (n : Node D) → node_query be p false n ≡ (ok (lawful.listed n.eng p false), n)
    unfolding node_query Txn.query
    queried p n = rw (lawful.query_ok n.eng p false, node_query, Txn.query) refl

    -- A datastore that works is read without a failure and without a change.
    pub registers-ReadsMeta : ReadsMeta registers meta_in
    unfolding registers meta_in read_meta read_slots
    registers-ReadsMeta k s = rw (queried (meta_base db k) s) refl

    pub write_slot_ok :
        (k v : Bytes) (tag : ℕ) (n : Node D) → (registers.write_slot k tag v n).0 ≡ ok tt
    unfolding registers write_slot node_put Txn.put
    write_slot_ok k v tag n =
        let clock = Hlc.now n.wall_ms n.clock in
        rw
          (lawful.put_ok n.eng k
            (encode_slot (record { stamp = clock.last; tag = tag; value = v })))
          refl
