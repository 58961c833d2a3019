-- ===== src/Tests/Sets.antt =====
-- crdtstore/rset.go: sets over a node whose datastore is an association list.
use redgeo.Base.{
  Bytes, compare_bytes, bytes_eq, be, un_be, ascii, pos, length, lookup, remove, insert, contains,
  ◌==◌, if◌then◌else◌, ℕ, ◌≡◌, refl, ◌⊎◌, inl, inr, Bool, true, false, not, ◌&&◌, ◌||◌, none, some,
  List, [], ◌∷◌, bytes_key,
}
use redgeo.Exec.{ok, err, not_found, key_type}
use redgeo.Keyspace.{type_set, type_list, ensure_type, meta_of}
use redgeo.Keyspace.Node.{
  Node, keyspace, probe, read_meta, read_slots, node_query, slots_of, winning_meta, probe_meta,
  node_put, node_has, node_del, write_meta, write_slot, last_segment, expired, is_live, any_prefix,
}
use redgeo.Txn
use redgeo.Slot.{winner, winner_from, challenge, encode_slot, decode_slot}
use redgeo.Hlc
use redgeo.Keyspace.Lawful.{other_live}
use redgeo.Keys.{
  set_base, set_member, data_base, meta_slot, meta_base, part, bucket, fnv, low_bytes, hex,
  hex_digit, decimal, decimal_from, list_elem, list_base,
}
use redgeo.Keys.Base32.{
  enc_seg, enc_digits, digit_char, dec_seg, read_digits, char_digit, dec_digits,
}
use redgeo.Keys.Paths.{IsName}
use redgeo.Hlc.{zero_stamp}
use redgeo.Meta.{encode_meta, decode_meta}
use redgeo.Txn.{Backend, Fetched, value, Probed, known, Entry, has_prefix}
use redgeo.SetRepo.{
  add, add_loop, delete, pop, diff_store, union_store, exists, items, len, random, scan, move_held,
  diff, inter, union,
}
use redgeo.Scan.{Query, new_resume_table}
use redgeo.SetRepo.Contents.{contents, Canonical}
use redgeo.SetRepo.Steps.{Shows, IsSetKey, fresh, gone}
use redgeo.Locks.{new_lock_manager, lock_key, shard_for}
use redgeo.SetRepo.Combine.{some_has}
use redgeo.SetRepo.Pop.{pop-refines}
use redgeo.SetRepo.Algebra.Replace.{Stores, diff_store-refines, union_store-refines}
use redgeo.SetRepo.Errors.{other_type_refused, empty_member_lost}
use redgeo.SetRepo.Update.{add-refines, delete-refines}
use redgeo.Commands.{write_int, parsed}
use redgeo.Commands.Sets.{Members, Move, parse_sadd, parse_smove, run_sadd, run_smove}
use redgeo.Commands.EndToEnd.{sadd_replies, smove_replies}
use redgeo.Tests.Nodes.{
  Data, under, plain, clean, clean-Cleans, replica, other, ks, works, empty_node, empty-Canonical,
  key_a, key_a-IsName, key_b, key_b-IsName, read_as, empty-IsSetKey,
}

-- a set with one member
abbrev one_set : Node Data
one_set = (add ks clean (pos 0) key_a (key_b ∷ []) empty_node).1

one-Canonical : Canonical works clean-Cleans (pos 0) one_set
one-Canonical =
    (add-refines works clean-Cleans (pos 0) key_a (key_b ∷ []) empty_node key_a-IsName
      (key_b-IsName, tt) empty-Canonical (empty-IsSetKey key_a)).1.0

one_set-probe :
    probe plain clean replica (pos 0) other key_a one_set ≡ (ok (some type_set), one_set)
unfolding probe read_meta read_slots node_query Txn.query under slots_of winning_meta winner
    winner_from probe_meta plain add add_loop ensure_type keyspace node_put node_has node_del
    write_meta write_slot Txn.put Txn.has meta_slot meta_base part bucket fnv low_bytes hex
    hex_digit decimal decimal_from enc_seg enc_digits digit_char clean encode_slot Hlc.now
    encode_meta be set_member set_base data_base has_prefix dec_seg read_digits char_digit
    dec_digits last_segment decode_slot Hlc.decode decode_meta un_be expired is_live any_prefix
    lookup insert remove bytes_eq compare_bytes challenge other_live Hlc.encode
one_set-probe = refl

one-IsSetKey : IsSetKey works clean-Cleans (pos 0) one_set key_a
one-IsSetKey = inr (read_as key_a (some type_set) one_set one_set-probe)

one_set-other : probe plain clean replica (pos 0) other key_b one_set ≡ (ok none, one_set)
unfolding probe read_meta read_slots node_query Txn.query under slots_of winning_meta winner
    winner_from probe_meta plain add add_loop ensure_type keyspace node_put node_has node_del
    write_meta write_slot Txn.put Txn.has meta_slot meta_base part bucket fnv low_bytes hex
    hex_digit decimal decimal_from enc_seg enc_digits digit_char clean encode_slot Hlc.now
    encode_meta be set_member set_base data_base has_prefix dec_seg read_digits char_digit
    dec_digits last_segment decode_slot Hlc.decode decode_meta un_be expired is_live any_prefix
    lookup insert remove bytes_eq compare_bytes challenge other_live Hlc.encode
one_set-other = refl

other-IsSetKey : IsSetKey works clean-Cleans (pos 0) one_set key_b
other-IsSetKey = inl (read_as key_b none one_set one_set-other)

first_one : ℕ → ℕ
first_one n = 0

abbrev a_member : Bytes → Bool
a_member x = contents works clean-Cleans (pos 0) one_set key_a x

-- the empty member
abbrev odd_set : Node Data
odd_set = (add ks clean (pos 0) key_a ([] ∷ []) empty_node).1

odd_set-probe : probe plain clean replica (pos 0) other key_a odd_set ≡ (ok none, odd_set)
unfolding probe read_meta read_slots node_query Txn.query under slots_of winning_meta winner
    winner_from probe_meta plain add add_loop ensure_type keyspace node_put node_has node_del
    write_meta write_slot Txn.put Txn.has meta_slot meta_base part bucket fnv low_bytes hex
    hex_digit decimal decimal_from enc_seg enc_digits digit_char clean encode_slot Hlc.now
    encode_meta be set_member set_base data_base has_prefix dec_seg read_digits char_digit
    dec_digits last_segment decode_slot Hlc.decode decode_meta un_be expired is_live any_prefix
    lookup insert remove bytes_eq compare_bytes challenge other_live Hlc.encode
odd_set-probe = refl

-- a key that holds a list
abbrev pub list_node : Node Data
list_node =
    (ks.write_meta key_a (meta_of type_list)
      (ks.put (list_elem clean (pos 0) key_a (ascii "0")) key_b empty_node).1).1

pub list_node-probe :
    probe plain clean replica (pos 0) other key_a list_node ≡ (ok (some type_list), list_node)
unfolding probe read_meta read_slots node_query Txn.query under slots_of winning_meta winner
    winner_from probe_meta plain add add_loop ensure_type keyspace node_put node_has node_del
    write_meta write_slot Txn.put Txn.has meta_slot meta_base part bucket fnv low_bytes hex
    hex_digit decimal decimal_from enc_seg enc_digits digit_char clean encode_slot Hlc.now
    encode_meta be set_member set_base data_base has_prefix dec_seg read_digits char_digit
    dec_digits last_segment decode_slot Hlc.decode decode_meta un_be expired is_live any_prefix
    lookup insert remove bytes_eq compare_bytes challenge other_live Hlc.encode list_elem list_base
list_node-probe = refl

sadd_replies_example :
    (c : Members) × (parse_sadd (key_a ∷ key_b ∷ []) ≡ parsed c)
    × ((run_sadd ks clean (pos 0) c empty_node).0
        ≡ write_int
            (pos (fresh (contents works clean-Cleans (pos 0) empty_node key_a) (key_b ∷ [])))
          ∷ [])
    × Shows works clean-Cleans (pos 0) (run_sadd ks clean (pos 0) c empty_node).1 (λ key x.
      (bytes_eq key_a key && contains (key_b ∷ []) x)
      || contents works clean-Cleans (pos 0) empty_node key x)
sadd_replies_example =
    sadd_replies works clean-Cleans (pos 0) key_a key_b [] empty_node key_a-IsName
      (key_b-IsName, tt) empty-Canonical (empty-IsSetKey key_a)

smove_replies_example :
    (c : Move) × (parse_smove (key_a ∷ key_b ∷ key_b ∷ []) ≡ parsed c)
    × (s' : Node Data) × (run_smove ks clean (pos 0) (new_lock_manager 4) c one_set ≡ (
        if shard_for (new_lock_manager 4).mask (lock_key (pos 0) key_a)
          == shard_for (new_lock_manager 4).mask (lock_key (pos 0) key_b)
        then none
        else some (write_int (if a_member key_b then pos 1 else pos 0) ∷ [], s')))
    × Shows works clean-Cleans (pos 0) s' (λ key x.
      if a_member key_b
      then (bytes_eq key_b key && bytes_eq key_b x)
        || (contents works clean-Cleans (pos 0) one_set key x
            && not (bytes_eq key_a key && bytes_eq key_b x))
      else contents works clean-Cleans (pos 0) one_set key x)
unfolding new_lock_manager
smove_replies_example =
    smove_replies works clean-Cleans (pos 0) (new_lock_manager 4) key_a key_b key_b one_set refl
      key_a-IsName key_b-IsName key_b-IsName one-Canonical one-IsSetKey other-IsSetKey

diff_store-refines_example :
    Stores works clean-Cleans
      (pos 0)
      one_set
      (diff_store ks clean (pos 0) key_a (key_a ∷ key_b ∷ []))
      (diff ks clean (pos 0) (key_a ∷ key_b ∷ []))
      key_a
      (λ x.
        a_member x
        && not (some_has (λ k. contents works clean-Cleans (pos 0) one_set k x) (key_b ∷ [])))
diff_store-refines_example =
    diff_store-refines works clean-Cleans (pos 0) one_set one-Canonical key_a key_a-IsName
      (inl (read_as key_a (some type_set) one_set one_set-probe)) key_a (key_b ∷ [])
      (key_a-IsName, one-IsSetKey) ((key_b-IsName, other-IsSetKey), tt)

union_store-refines_example :
    Stores works clean-Cleans
      (pos 0)
      one_set
      (union_store ks clean (pos 0) key_a (key_a ∷ key_b ∷ []))
      (union ks clean (pos 0) (key_a ∷ key_b ∷ []))
      key_a
      (λ x. some_has (λ k. contents works clean-Cleans (pos 0) one_set k x) (key_a ∷ key_b ∷ []))
union_store-refines_example =
    union_store-refines works clean-Cleans (pos 0) one_set one-Canonical key_a key_a-IsName
      (inl (read_as key_a (some type_set) one_set one_set-probe)) (key_a ∷ key_b ∷ [])
      ((key_a-IsName, one-IsSetKey), ((key_b-IsName, other-IsSetKey), tt))

delete-refines_example :
    ((delete ks clean (pos 0) key_a (key_b ∷ key_b ∷ key_a ∷ []) one_set).0
      ≡ ok (gone a_member (key_b ∷ key_b ∷ key_a ∷ [])))
    × Shows works clean-Cleans
        (pos 0)
        (delete ks clean (pos 0) key_a (key_b ∷ key_b ∷ key_a ∷ []) one_set).1
        (λ key x.
          contents works clean-Cleans (pos 0) one_set key x
          && not (bytes_eq key_a key && contains (key_b ∷ key_b ∷ key_a ∷ []) x))
delete-refines_example =
    delete-refines works clean-Cleans (pos 0) key_a (key_b ∷ key_b ∷ key_a ∷ []) one_set
      key_a-IsName (key_b-IsName, (key_b-IsName, (key_a-IsName, tt))) one-Canonical one-IsSetKey

pop-refines_example :
    (((x : Bytes) → IsName x → a_member x ≡ false)
      × (pop ks clean (pos 0) first_one key_a one_set ≡ (err not_found, one_set)))
    ⊎ ((m : Bytes) × IsName m
        × (a_member m ≡ true)
        × ((pop ks clean (pos 0) first_one key_a one_set).0 ≡ ok m)
        × (mem : List Bytes) × (items ks clean (pos 0) key_a one_set ≡ (ok mem, one_set))
        × ((pop ks clean (pos 0) first_one key_a one_set).1 ≡ (
            let s' = (ks.del (set_member clean (pos 0) key_a m) one_set).1 in
            if length mem == 1 then (ks.delete_meta key_a s').1 else s'))
        × Shows works clean-Cleans
            (pos 0)
            (pop ks clean (pos 0) first_one key_a one_set).1
            (λ key x.
              contents works clean-Cleans (pos 0) one_set key x
              && not (bytes_eq key_a key && bytes_eq m x)))
unfolding first_one
pop-refines_example =
    pop-refines works clean-Cleans (pos 0) first_one key_a one_set (λ n h. h) one-Canonical
      (key_a-IsName, one-IsSetKey)

-- a page of the key
abbrev one_page : Query
one_page = record {
  db = pos 0;
  key = key_a;
  count = pos 2;
  pattern = [];
  glob = λ name pattern. false;
}

other_type_refused_example :
    (add ks clean (pos 0) key_a (key_b ∷ []) list_node ≡ (err key_type, list_node))
    × (delete ks clean (pos 0) key_a (key_b ∷ []) list_node ≡ (err key_type, list_node))
    × (exists ks clean (pos 0) key_a key_b list_node ≡ (err key_type, list_node))
    × (items ks clean (pos 0) key_a list_node ≡ (err key_type, list_node))
    × (len ks clean (pos 0) key_a list_node ≡ (err key_type, list_node))
    × (random ks clean (pos 0) first_one key_a list_node ≡ (err key_type, list_node))
    × (pop ks clean (pos 0) first_one key_a list_node ≡ (err key_type, list_node))
    × (scan ks clean (pos 0) (pos 9) one_page (pos 0) (new_resume_table (pos 60000)) list_node
        ≡ (err key_type, list_node))
    × (move_held ks clean (pos 0) key_a key_b key_b list_node ≡ (err key_type, list_node))
    × (diff ks clean (pos 0) (key_a ∷ key_b ∷ []) list_node ≡ (err key_type, list_node))
    × (inter ks clean (pos 0) (key_a ∷ key_b ∷ []) list_node ≡ (err key_type, list_node))
    × (union ks clean (pos 0) (key_a ∷ key_b ∷ []) list_node ≡ (err key_type, list_node))
other_type_refused_example =
    other_type_refused works clean (pos 0) key_a key_b (key_b ∷ []) (key_b ∷ []) key_b first_one
      list_node type_list (pos 9) one_page (pos 0) (new_resume_table (pos 60000)) refl
      (read_as key_a (some type_list) list_node list_node-probe) refl

empty_member_lost_example :
    (exists ks clean (pos 0) key_a [] odd_set ≡ (ok true, odd_set))
    × ((vals : List Bytes) × (items ks clean (pos 0) key_a odd_set ≡ (ok vals, odd_set))
        × (contains vals [] ≡ false))
empty_member_lost_example =
    empty_member_lost works clean-Cleans (pos 0) key_a empty_node key_a-IsName empty-Canonical
      (empty-IsSetKey key_a) (inl (read_as key_a none odd_set odd_set-probe))
