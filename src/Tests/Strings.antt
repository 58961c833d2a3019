-- ===== src/Tests/Strings.antt =====
-- crdtstore/rstring.go: a counter and a key of another type on a node whose datastore is an
-- association list.
use redgeo.Base.{
  Bytes, compare_bytes, bytes_eq, be, un_be, ascii, ℤ, pos, lookup, remove, insert, ℕ, ◌+◌, ◌≡◌,
  refl, true, false, Option, none, some, List, [], ◌∷◌, bytes_key,
}
use redgeo.Exec.{ok}
use redgeo.Keyspace.{type_list, type_string, meta_of}
use redgeo.Keyspace.Node.{
  Node, read_meta, node_query, read_slots, node_put, node_has, node_del, write_meta, write_slot,
  slots_of, winning_meta, last_segment, keyspace,
}
use redgeo.Keyspace.Lawful.{kind, other_live}
use redgeo.Keys.{
  counter_base, counter_slot, str_slot, meta_slot, meta_base, data_base, part, bucket, fnv,
  low_bytes, hex, hex_digit, decimal, decimal_from, list_elem, list_base,
}
use redgeo.Keys.Base32.{
  enc_seg, enc_digits, digit_char, dec_seg, read_digits, char_digit, dec_digits,
}
use redgeo.Hlc
use redgeo.Slot.{winner, winner_from, challenge, encode_slot, decode_slot, tag_present}
use redgeo.Meta.{Meta, encode_meta, decode_meta, flavor_counter, flavor_none}
use redgeo.Parser.Atoi.{atoi, scan_digits, is_digit, unsigned}
use redgeo.Txn
use redgeo.Txn.{Entry, has_prefix}
use redgeo.Counters.Total.{counter_meta, stored_components}
use redgeo.Counters.{
  Number, add64, incr_int, increment, components, components_from, others_from, component_of, int64,
  counter_sum_int,
}
use redgeo.StrRepo.{Registers, Sketches, etime_or, flavor_of, set_with}
use redgeo.StrRepo.Stored.{registers, meta_in, registers-ReadsMeta, write_slot_ok}
use redgeo.StrRepo.Incr.{uncountable, counted}
use redgeo.StrRepo.Guards.{set_nx_overwrites, nx_opts, plain_meta}
use redgeo.Commands.{parsed}
use redgeo.Commands.Strings.{IncrBy, parse_incrby, run_incr}
use redgeo.Commands.Counting.{incrby_replies, reply_counted, signed_delta}
use redgeo.Tests.Nodes.{
  Data, plain, under, plain-Lawful, clean, replica, other, ks, works, empty_node, key_a,
  key_a-IsName, key_b, read_as, no_other, clean-Cleans, replica-IsName,
}
use redgeo.Tests.Sets.{list_node, list_node-probe}

-- no HyperLogLogs and no bitmaps
abbrev no_sketches : Sketches (Node Data)
no_sketches = record {
  load_hll = λ dense k n. (ok [], n);
  load_bitmap = λ k n. (ok [], n);
  delete_hll = λ k n. (ok tt, n);
  delete_bitmap = λ k n. (ok tt, n);
  is_redis_hll = λ b. false;
  store_hll = λ k b e dense n. (ok tt, n);
}

abbrev no_floats : Number ℕ
no_floats = record { parse = λ b. none; format = λ n. []; plus = ◌+◌; nought = 0 }

abbrev regs : Registers (Node Data)
regs = registers plain clean replica (pos 0) other

abbrev meta : Node Data → Bytes → Option Meta
meta = meta_in plain clean replica (pos 0) other plain-Lawful

abbrev live_kind : Node Data → Bytes → Option ℕ
live_kind = kind plain-Lawful clean-Cleans replica replica-IsName (pos 0) no_other

-- a counter that stands at five
abbrev one_counter : Node Data
one_counter = (incr_int ks clean replica (pos 0) key_a (pos 5) (pos 0) empty_node).1

abbrev five_meta : Meta
five_meta = record { type_id = type_string; flavor = flavor_counter; etime_ms = pos 0; epoch = 0 }

meta_as :
    (key : Bytes) (m : Option Meta) (n : Node Data)
    → read_meta plain clean replica (pos 0) other key n ≡ (ok m, n)
    → meta n key ≡ m
unfolding registers
meta_as key m n done =
    cc (done, registers-ReadsMeta plain clean replica (pos 0) other plain-Lawful key n)

listed_as :
    (p : Bytes) (es : List Entry) (n : Node Data)
    → node_query plain p true n ≡ (ok es, n)
    → works.listed p true n ≡ es
unfolding keyspace
listed_as p es n done = cc (done, works.query_ok p true n)

one_counter-meta :
    read_meta plain clean replica (pos 0) other key_a one_counter
    ≡ (ok (some five_meta), one_counter)
unfolding read_meta read_slots incr_int increment components components_from others_from
    component_of int64 keyspace node_put node_query node_has node_del write_meta write_slot Txn.put
    Txn.query under slots_of winning_meta winner winner_from plain meta_slot meta_base part bucket
    fnv low_bytes hex hex_digit decimal decimal_from enc_seg enc_digits digit_char clean encode_slot
    Hlc.now encode_meta be counter_base counter_slot data_base has_prefix dec_seg read_digits
    char_digit dec_digits last_segment decode_slot Hlc.decode decode_meta un_be lookup insert remove
    bytes_eq compare_bytes challenge other_live Hlc.encode add64
one_counter-meta = refl

abbrev five : Entry
five = record { key = counter_slot clean (pos 0) key_a replica; val = ascii "5" }

one_counter-listed :
    node_query plain (counter_base (pos 0) key_a) true one_counter ≡ (ok (five ∷ []), one_counter)
unfolding incr_int increment components components_from others_from component_of int64 keyspace
    node_put node_query node_has node_del write_meta write_slot Txn.put Txn.query under plain
    meta_slot meta_base part bucket fnv low_bytes hex hex_digit decimal decimal_from enc_seg
    enc_digits digit_char clean encode_slot Hlc.now encode_meta be counter_base counter_slot
    data_base has_prefix lookup insert remove bytes_eq compare_bytes other_live Hlc.encode add64
one_counter-listed = refl

list_node-meta :
    read_meta plain clean replica (pos 0) other key_a list_node
    ≡ (ok (some (meta_of type_list)), list_node)
unfolding read_meta read_slots keyspace node_put node_query node_has node_del write_meta write_slot
    Txn.put Txn.query under slots_of winning_meta winner winner_from plain meta_slot meta_base part
    bucket fnv low_bytes hex hex_digit decimal decimal_from enc_seg enc_digits digit_char clean
    encode_slot Hlc.now encode_meta be list_elem list_base data_base has_prefix dec_seg read_digits
    char_digit dec_digits last_segment decode_slot Hlc.decode decode_meta un_be lookup insert remove
    bytes_eq compare_bytes challenge other_live Hlc.encode
list_node-meta = refl

incrby_replies_example :
    (c : IncrBy) × (parse_incrby (key_a ∷ ascii "5" ∷ []) true ≡ parsed c)
    × (sum : ℤ) × (counter_sum_int ks clean replica (pos 0) key_a empty_node ≡ (ok sum, empty_node))
    × ((run_incr ks regs no_sketches no_floats clean replica (pos 0) c empty_node).0
        ≡ reply_counted
            (uncountable (live_kind empty_node key_a) (meta empty_node key_a))
            (add64 sum (signed_delta true (pos 5))))
    × ((run_incr ks regs no_sketches no_floats clean replica (pos 0) c empty_node).1
        ≡ (counted
            (uncountable (live_kind empty_node key_a) (meta empty_node key_a))
            (add64 sum (signed_delta true (pos 5)))
            empty_node
            (ks.write_meta key_a
              (counter_meta (etime_or (pos 0) (meta empty_node key_a)))
              (ks.put
                (counter_slot clean (pos 0) key_a replica)
                (decimal (
                  add64
                    (component_of int64 replica
                      (stored_components works clean replica (pos 0) empty_node key_a))
                    (signed_delta true (pos 5))))
                empty_node).1).1).1)
unfolding atoi scan_digits is_digit unsigned
incrby_replies_example =
    incrby_replies works regs meta
      (registers-ReadsMeta plain clean replica (pos 0) other plain-Lawful) no_sketches no_floats
      clean replica (pos 0) key_a (ascii "5") (pos 5) true empty_node refl key_a-IsName

set_nx_overwrites_example :
    set_with ks regs no_sketches no_floats clean replica (pos 0) key_a key_b nx_opts list_node ≡ (
      ok (record { prev = []; created = true; updated = false }),
      (ks.write_meta key_a plain_meta
          (regs.write_slot (str_slot clean (pos 0) key_a replica) tag_present key_b list_node).1).1,
    )
unfolding flavor_of
set_nx_overwrites_example =
    set_nx_overwrites works regs meta
      (registers-ReadsMeta plain clean replica (pos 0) other plain-Lawful) no_sketches no_floats
      clean replica (pos 0) key_a key_b type_list list_node
      (read_as key_a (some type_list) list_node list_node-probe) refl no_flavor refl
      (λ k v n. write_slot_ok plain clean replica (pos 0) other plain-Lawful k v tag_present n)
  where
    no_flavor : flavor_of (meta list_node key_a) ≡ flavor_none
    no_flavor = rw (meta_as key_a (some (meta_of type_list)) list_node list_node-meta) refl
