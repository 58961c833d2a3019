-- ===== src/Keyspace/Node.antt =====
-- crdtstore/store.go, meta.go and probe.go: the slots of the replicas, the metadata of a key and its
-- liveness, over the datastore. The wall clock stands still within one operation. The liveness of the
-- types that are not read here is the parameter `other_live`.
use redgeo.Base.{
  Bytes, ℤ, ltz, lez, pos, length, insert, ltb, ◌==◌, if◌then◌else◌, ℕ, Bool, true, false, ◌&&◌,
  ◌||◌, Option, none, some, List, [], ◌∷◌, bytes_key,
}
use redgeo.Exec.{Exec, Result, ok, err, failed, pure, ◌>>=◌}
use redgeo.Keyspace.{Keyspace, type_string, type_list, type_set}
use redgeo.Keys.{
  meta_base, meta_slot, str_base, counter_base, hll_base, set_base, list_base, stream_last_base,
}
use redgeo.Keys.Base32.{dec_seg}
use redgeo.Hlc
use redgeo.Hlc.{Clock}
use redgeo.Slot.{Cands, encode_slot, decode_slot, winner, live_value, tag_present, tag_deleted}
use redgeo.Meta.{Meta, encode_meta, decode_meta, is_counter, is_hll, flavor_bitmap}
use redgeo.Txn
use redgeo.Txn.{Backend, Store, Entry, Fetched, value, Probed, known, probe_failed}

-- A node outside of a transaction: its datastore, its hybrid clock, and what its wall clock reads.
pub record Node (D : Type 0) : Type 0 where
  pub eng : D
  pub clock : Clock
  pub wall_ms : ℤ

-- lastSegment: what follows the last slash
unfoldable pub last_segment : Bytes → Bytes
last_segment [] = []
last_segment (c ∷ cs) =
    let rest = last_segment cs in
    if contains_slash cs then rest else if c == b'/' then cs else c ∷ cs
  where
    contains_slash : Bytes → Bool
    contains_slash [] = false
    contains_slash (d ∷ ds) = d == b'/' || contains_slash ds

-- the loop of readSlots; what does not decode is skipped
unfoldable pub slots_of : Cands → List Entry → Cands
unfolding last_segment
slots_of out [] = out
slots_of out (e ∷ entries) = elim (dec_seg (last_segment e.key)) [
  | none ↦ slots_of out entries
  | some replica ↦ elim (decode_slot e.val) [
    | none ↦ slots_of out entries
    | some sl ↦ slots_of (insert replica sl out) entries
  ]
]

-- readMeta: the metadata that win; a deleted key has none
unfoldable pub winning_meta : Cands → Option Meta
winning_meta cands = elim (winner cands) [
  | none ↦ none
  | some (replica, best) ↦ if best.tag == tag_deleted then none else decode_meta best.value
]

module _ {D B : Type 0} (be : Backend D B) where
  abbrev store_of : Node D → Store D B
  store_of n = record { eng = n.eng; txn = none }

  stored : Option (Store D B) → Node D → Result (Unit {0}) × Node D
  stored none n = (err failed, n)
  stored (some st) n = (ok tt, record n { eng = st.eng })

  unfoldable pub node_put : Bytes → Bytes → Exec (Node D) (Unit {0})
  unfolding stored
  node_put k v n = stored (Txn.put be k v (store_of n)) n

  unfoldable pub node_del : Bytes → Exec (Node D) (Unit {0})
  unfolding stored
  node_del k n = stored (Txn.del be k (store_of n)) n

  unfoldable pub node_has : Bytes → Exec (Node D) Bool
  node_has k n = elim (Txn.has be (store_of n) k) [
    | known b ↦ (ok b, n)
    | probe_failed ↦ (err failed, n)
  ]

  unfoldable pub node_get : Bytes → Exec (Node D) (Option Bytes)
  node_get k n = elim (Txn.get be (store_of n) k) [
    | value v ↦ (ok (some v), n)
    | Fetched.not_found ↦ (ok none, n)
    | Fetched.failed ↦ (err failed, n)
  ]

  unfoldable pub node_query : Bytes → Bool → Exec (Node D) (List Entry)
  node_query p keys_only n = elim (Txn.query be (store_of n) p keys_only) [
    | none ↦ (err failed, n)
    | some entries ↦ (ok entries, n)
  ]

  -- stamp and writeSlot
  unfoldable pub write_slot : Bytes → ℕ → Bytes → Exec (Node D) (Unit {0})
  unfolding node_put
  write_slot k tag val n =
      let clock = Hlc.now n.wall_ms n.clock in
      node_put k (encode_slot (record { stamp = clock.last; tag = tag; value = val }))
        (record n { clock = clock })

  unfoldable pub read_slots : Bytes → Exec (Node D) Cands
  unfolding slots_of node_query
  read_slots base = do entries ← node_query base false; pure (slots_of [] entries)

  unfoldable pub any_prefix : Bytes → Exec (Node D) Bool
  unfolding node_query
  any_prefix p = do entries ← node_query p true; pure (ltb 0 (length entries))

  module _ (new_key : Bytes → Bytes) (replica : Bytes) (db : ℤ)
      (other_live : Bytes → Meta → Exec (Node D) Bool) where
    unfoldable pub read_meta : Bytes → Exec (Node D) (Option Meta)
    unfolding read_slots winning_meta
    read_meta key = do cands ← read_slots (meta_base db key); pure (winning_meta cands)

    unfoldable pub write_meta : Bytes → Meta → Exec (Node D) (Unit {0})
    unfolding write_slot
    write_meta key m = write_slot (meta_slot new_key db key replica) tag_present (encode_meta m)

    unfoldable pub delete_meta : Bytes → Exec (Node D) (Unit {0})
    unfolding write_slot
    delete_meta key = write_slot (meta_slot new_key db key replica) tag_deleted []

    unfoldable pub string_live : Bytes → Meta → Exec (Node D) Bool
    string_live key m =
        if is_counter m.flavor
        then any_prefix (counter_base db key)
        else if is_hll m.flavor
        then any_prefix (hll_base db key)
        else if m.flavor == flavor_bitmap
        then other_live key m
        else (do
          cands ← read_slots (str_base db key)
          pure (elim (live_value cands) [ none ↦ false | some v ↦ true ]))

    -- isLive
    unfoldable pub is_live : Bytes → Meta → Exec (Node D) Bool
    is_live key m =
        if m.type_id == type_string
        then string_live key m
        else if m.type_id == type_set
        then any_prefix (set_base db key)
        else if m.type_id == type_list
        then any_prefix (list_base db key)
        else if m.type_id == 6
        then any_prefix (stream_last_base db key)
        else other_live key m

    -- a key whose expiry has passed is not there
    unfoldable pub expired : ℤ → Meta → Bool
    expired now m = ltz (pos 0) m.etime_ms && lez m.etime_ms now

    unfoldable pub probe_meta : Bytes → Option Meta → Exec (Node D) (Option ℕ)
    probe_meta key none n = (ok none, n)
    probe_meta key (some m) n =
        if expired n.wall_ms m
        then (ok none, n)
        else (do live ← is_live key m; pure (if live then some m.type_id else none)) n

    -- probe, by the type of the key
    unfoldable pub probe : Bytes → Exec (Node D) (Option ℕ)
    probe key = do found ← read_meta key; probe_meta key found

    unfoldable pub keyspace : Keyspace (Node D)
    unfolding probe node_query node_get node_has node_put node_del write_meta delete_meta
    keyspace = record {
      probe = probe;
      query = node_query;
      get = node_get;
      has = node_has;
      put = node_put;
      del = node_del;
      write_meta = write_meta;
      delete_meta = delete_meta;
    }
