-- ===== src/Tests/Lists.antt =====
-- crdtstore/rlist.go: a list with one element, and floats that are one and minus one.
use redgeo.Base.{
  Bytes, compare_bytes, bytes_eq, be, un_be, ascii, ℤ, pos, negsuc, length, All, lookup, remove,
  insert, ◌==◌, if◌then◌else◌, ℕ, ◌^◌, ◌≤◌, ◌<◌, compare, Ordering, ◌≡◌, refl, sym, ap, inr, Bool,
  true, false, none, some, List, [], ◌∷◌, ◌++◌, arith, bytes_key,
}
use mathlib.Core.Path.{subst}
use redgeo.Exec.{Exec, ok}
use redgeo.Keyspace.{type_list, ensure_type}
use redgeo.Keyspace.Node.{
  Node, keyspace, probe, read_meta, read_slots, node_query, slots_of, winning_meta, probe_meta,
  node_put, node_has, node_del, write_meta, write_slot, last_segment, expired, is_live, any_prefix,
}
use redgeo.Txn
use redgeo.Slot.{winner, winner_from, challenge, encode_slot, decode_slot}
use redgeo.Hlc
use redgeo.Keyspace.Lawful.{other_live, view}
use redgeo.Keys.{
  set_base, set_member, data_base, meta_slot, meta_base, part, bucket, fnv, low_bytes, hex,
  hex_digit, decimal, decimal_from, list_elem, list_base,
}
use redgeo.Keys.Base32.{
  enc_seg, enc_digits, digit_char, dec_seg, read_digits, char_digit, dec_digits,
}
use redgeo.Hlc.{zero_stamp}
use redgeo.Meta.{encode_meta, decode_meta}
use redgeo.Txn.{Backend, Fetched, value, Probed, known, Entry, has_prefix}
use redgeo.SetRepo.{add, add_loop}
use redgeo.Tests.Nodes.{
  Data, under, plain, clean, clean-Cleans, plain-Lawful, no_other, replica, replica-IsName, other,
  ks, works, empty_node, key_a, key_a-IsName, key_b, read_as,
}
use redgeo.Parser.Atoi.{is_digit}
use redgeo.ListRepo.{
  ListEntry, push, push_back, read_list, entries, decoded, make_pos_key, push_pos, sort_entries,
  insert_entry, range, trim, values, delete_matching, push_front, insert_at,
}
use redgeo.ListRepo.Position.{
  Floats, IsFloat64, encode_pos, decode_pos, ordered, unordered, parse_hex, hex_value,
  compare_bytes-encode_pos,
}
use redgeo.ListRepo.Bounds.{kept, trimmed, index_in}
use redgeo.ListRepo.Trim.{list_of, IsListKey, IsListed, IsStored, is_elem, trim_keeps_range}
use redgeo.ListRepo.Remove.{matching, directed, limited, delete_matching-refines}
use redgeo.ListRepo.Misplaced.{insert_misplaced}
use redgeo.Keyspace.{trim_prefix, is_meta}
use Prim.Native.Nat.Ordering.{lt, eq, gt}

abbrev one_bits : ℕ
one_bits = 0x3ff0000000000000

abbrev minus_one_bits : ℕ
minus_one_bits = 0xbff0000000000000

-- `true` is 1.0 and `false` is -1.0; sums stay among the two.
abbrev toy : Floats Bool
toy = record {
  bits = λ f. if f then one_bits else minus_one_bits;
  of_bits = λ u. u == one_bits;
  is_nonneg = λ f. f;
  zero_pos = true;
  plus_one = λ f. true;
  minus_one = λ f. false;
  middle = λ f g. g;
}

toy_order : Bool → Bool → Ordering
toy_order true true = eq
toy_order true false = gt
toy_order false true = lt
toy_order false false = eq

not_both : {A : Type 0} → true ≡ false → A
not_both e = absurd (cc e)

toy-IsFloat64 : IsFloat64 toy toy_order
unfolding toy_order
toy-IsFloat64 = record {
  of_bits_bits = both;
  nonneg_bits = below;
  negative_bits = above;
  nonneg_order = plus_order;
  negative_order = minus_order;
  sign_order = mixed;
}
  where
    both : (f : Bool) → ((if f then one_bits else minus_one_bits) == one_bits) ≡ f
    both true = refl
    both false = refl

    below : (f : Bool) → f ≡ true → (if f then one_bits else minus_one_bits) < 2 ^ 63
    below true e = omega arith
    below false e = not_both (sym e)

    above :
        (f : Bool)
        → f ≡ false
        → (2 ^ 63 ≤ (if f then one_bits else minus_one_bits))
          × ((if f then one_bits else minus_one_bits) < 2 ^ 64)
    above true e = not_both e
    above false e = (omega arith, omega arith)

    bits : Bool → ℕ
    bits f = if f then one_bits else minus_one_bits

    plus_order : (f g : Bool) → f ≡ true → g ≡ true → toy_order f g ≡ compare (bits f) (bits g)
    plus_order true true e e' = refl
    plus_order false g e e' = not_both (sym e)
    plus_order true false e e' = not_both (sym e')

    minus_order : (f g : Bool) → f ≡ false → g ≡ false → toy_order f g ≡ compare (bits g) (bits f)
    minus_order false false e e' = refl
    minus_order true g e e' = not_both e
    minus_order false true e e' = not_both e'

    mixed : (f g : Bool) → f ≡ false → g ≡ true → (toy_order f g ≡ lt) × (toy_order g f ≡ gt)
    mixed false true e e' = (refl, refl)
    mixed true g e e' = not_both e
    mixed false false e e' = not_both (sym e')

next_seq : Exec (Node Data) ℕ
next_seq n = (ok 1, n)

abbrev one_list : Node Data
one_list = (push_back toy ks clean replica next_seq (pos 0) key_a key_b empty_node).1

one_list-probe :
    probe plain clean replica (pos 0) other key_a one_list ≡ (ok (some type_list), one_list)
unfolding probe read_meta read_slots node_query Txn.query under slots_of winning_meta winner
    winner_from probe_meta plain add add_loop ensure_type keyspace node_put node_has node_del
    write_meta write_slot Txn.put Txn.has meta_slot meta_base part bucket fnv low_bytes hex
    hex_digit decimal decimal_from enc_seg enc_digits digit_char clean encode_slot Hlc.now
    encode_meta be set_member set_base data_base has_prefix dec_seg read_digits char_digit
    dec_digits last_segment decode_slot Hlc.decode decode_meta un_be expired is_live any_prefix
    lookup insert remove bytes_eq compare_bytes challenge other_live Hlc.encode list_elem list_base
    push_back push read_list entries decoded make_pos_key push_pos encode_pos decode_pos ordered
    unordered parse_hex hex_value is_digit trim_prefix sort_entries insert_entry next_seq
one_list-probe = refl

one-IsListKey : IsListKey toy works clean replica next_seq (pos 0) one_list key_a
one-IsListKey = inr (read_as key_a (some type_list) one_list one_list-probe)

abbrev the_list : List (ListEntry Bool)
the_list = list_of toy works clean replica next_seq (pos 0) one_list key_a

-- the entry of its element
abbrev one_entry : Entry
one_entry = record {
  key =
      list_elem clean (pos 0) key_a
        (encode_pos toy true ++ ascii "-" ++ enc_seg replica ++ ascii "-" ++ hex 16 1);
  val = key_b;
}

one_list-query : ks.query (list_base (pos 0) key_a) false one_list ≡ (ok (one_entry ∷ []), one_list)
unfolding probe read_meta read_slots node_query Txn.query under slots_of winning_meta winner
    winner_from probe_meta plain add add_loop ensure_type keyspace node_put node_has node_del
    write_meta write_slot Txn.put Txn.has meta_slot meta_base part bucket fnv low_bytes hex
    hex_digit decimal decimal_from enc_seg enc_digits digit_char clean encode_slot Hlc.now
    encode_meta be set_member set_base data_base has_prefix dec_seg read_digits char_digit
    dec_digits last_segment decode_slot Hlc.decode decode_meta un_be expired is_live any_prefix
    lookup insert remove bytes_eq compare_bytes challenge other_live Hlc.encode list_elem list_base
    push_back push_front push read_list entries decoded make_pos_key push_pos encode_pos decode_pos
    ordered unordered parse_hex hex_value is_digit trim_prefix sort_entries insert_entry next_seq
one_list-query = refl

one_list-IsListed :
    All
      (IsListed toy works clean replica next_seq (pos 0) one_list key_a)
      (works.listed (list_base (pos 0) key_a) false one_list)
unfolding probe read_meta read_slots node_query Txn.query under slots_of winning_meta winner
    winner_from probe_meta plain add add_loop ensure_type keyspace node_put node_has node_del
    write_meta write_slot Txn.put Txn.has meta_slot meta_base part bucket fnv low_bytes hex
    hex_digit decimal decimal_from enc_seg enc_digits digit_char clean encode_slot Hlc.now
    encode_meta be set_member set_base data_base has_prefix dec_seg read_digits char_digit
    dec_digits last_segment decode_slot Hlc.decode decode_meta un_be expired is_live any_prefix
    lookup insert remove bytes_eq compare_bytes challenge other_live Hlc.encode list_elem list_base
    push_back push_front push read_list entries decoded make_pos_key push_pos encode_pos decode_pos
    ordered unordered parse_hex hex_value is_digit trim_prefix sort_entries insert_entry next_seq
one_list-IsListed =
    let found : one_entry ∷ [] ≡ works.listed (list_base (pos 0) key_a) false one_list =
      cc (one_list-query, works.query_ok (list_base (pos 0) key_a) false one_list) in
    subst (All (IsListed toy works clean replica next_seq (pos 0) one_list key_a)) found
      ((refl, refl), tt)

trim_keeps_range_example :
    (lo hi : ℤ) × (index_in (length the_list) (pos 1) ≡ lo)
    × (index_in (length the_list) (negsuc 0) ≡ hi)
    × (range toy ks clean replica next_seq (pos 0) key_a (pos 1) (negsuc 0) one_list
        ≡ (ok (values (kept lo hi 0 the_list)), one_list))
    × ((trim toy ks clean replica next_seq (pos 0) key_a (pos 1) (negsuc 0) one_list).0
        ≡ ok (length (trimmed lo hi 0 the_list)))
    × All (IsStored toy works clean replica next_seq (pos 0) one_list key_a) the_list
    × ((j : Bytes)
        → is_meta j ≡ false
        → view plain-Lawful clean-Cleans replica replica-IsName
            (pos 0)
            no_other
            (trim toy ks clean replica next_seq (pos 0) key_a (pos 1) (negsuc 0) one_list).1
            j
          ≡ (if is_elem toy works clean replica next_seq (pos 0) key_a (trimmed lo hi 0 the_list) j
              then none
              else view plain-Lawful clean-Cleans replica replica-IsName
                  (pos 0)
                  no_other
                  one_list
                  j))
trim_keeps_range_example =
    trim_keeps_range toy works clean replica next_seq (pos 0) key_a (pos 1) (negsuc 0) one_list
      key_a-IsName one-IsListKey one_list-IsListed

delete_matching-refines_example :
    (es : List (ListEntry Bool)) × (es ≡ limited 1 (matching key_b (directed (negsuc 0) the_list)))
    × ((delete_matching toy ks clean replica next_seq (pos 0) key_a key_b (negsuc 0) one_list).0
        ≡ ok (length es))
    × All (IsStored toy works clean replica next_seq (pos 0) one_list key_a) the_list
    × ((j : Bytes)
        → is_meta j ≡ false
        → view plain-Lawful clean-Cleans replica replica-IsName
            (pos 0)
            no_other
            (delete_matching toy ks clean replica next_seq
              (pos 0)
              key_a
              key_b
              (negsuc 0)
              one_list).1
            j
          ≡ (if is_elem toy works clean replica next_seq (pos 0) key_a es j
              then none
              else view plain-Lawful clean-Cleans replica replica-IsName
                  (pos 0)
                  no_other
                  one_list
                  j))
delete_matching-refines_example =
    delete_matching-refines toy works clean replica next_seq (pos 0) key_a key_b (negsuc 0) one_list
      key_a-IsName one-IsListKey one_list-IsListed (omega arith)

compare_bytes-encode_pos_example :
    compare_bytes (encode_pos toy false) (encode_pos toy true) ≡ toy_order false true
compare_bytes-encode_pos_example = compare_bytes-encode_pos toy toy-IsFloat64 false true

-- one number for each entry of the datastore
count_seq : Exec (Node Data) ℕ
count_seq n = (ok (length n.eng), n)

abbrev two_items : Node Data
two_items =
    (push_front toy ks clean replica count_seq (pos 0) key_a key_a
      (push_back toy ks clean replica count_seq (pos 0) key_a key_b empty_node).1).1

abbrev item_at : Bool → Bytes → ℕ → ListEntry Bool
item_at p v seq = record {
  pos_key = encode_pos toy p ++ ascii "-" ++ enc_seg replica ++ ascii "-" ++ hex 16 seq;
  pos_of = p;
  val = v;
}

two_items-read :
    read_list toy ks clean replica count_seq (pos 0) key_a two_items
    ≡ (ok (item_at false key_a 2 ∷ item_at true key_b 0 ∷ []), two_items)
unfolding probe read_meta read_slots node_query Txn.query under slots_of winning_meta winner
    winner_from probe_meta plain add add_loop ensure_type keyspace node_put node_has node_del
    write_meta write_slot Txn.put Txn.has meta_slot meta_base part bucket fnv low_bytes hex
    hex_digit decimal decimal_from enc_seg enc_digits digit_char clean encode_slot Hlc.now
    encode_meta be set_member set_base data_base has_prefix dec_seg read_digits char_digit
    dec_digits last_segment decode_slot Hlc.decode decode_meta un_be expired is_live any_prefix
    lookup insert remove bytes_eq compare_bytes challenge other_live Hlc.encode list_elem list_base
    push_back push_front push read_list entries decoded make_pos_key push_pos encode_pos decode_pos
    ordered unordered parse_hex hex_value is_digit trim_prefix sort_entries insert_entry count_seq
two_items-read = refl

two_items-length : length two_items.eng ≡ 3
unfolding probe read_meta read_slots node_query Txn.query under slots_of winning_meta winner
    winner_from probe_meta plain add add_loop ensure_type keyspace node_put node_has node_del
    write_meta write_slot Txn.put Txn.has meta_slot meta_base part bucket fnv low_bytes hex
    hex_digit decimal decimal_from enc_seg enc_digits digit_char clean encode_slot Hlc.now
    encode_meta be set_member set_base data_base has_prefix dec_seg read_digits char_digit
    dec_digits last_segment decode_slot Hlc.decode decode_meta un_be expired is_live any_prefix
    lookup insert remove bytes_eq compare_bytes challenge other_live Hlc.encode list_elem list_base
    push_back push_front push read_list entries decoded make_pos_key push_pos encode_pos decode_pos
    ordered unordered parse_hex hex_value is_digit trim_prefix sort_entries insert_entry count_seq
two_items-length = refl

insert_misplaced_example :
    (pk : Bytes) × (insert_at toy ks clean replica count_seq
        (pos 0)
        key_a
        key_b
        (ascii "c")
        true
        two_items
      ≡ (ok (pos 3), (ks.put (list_elem clean (pos 0) key_a pk) (ascii "c") two_items).1))
    × (compare_bytes (item_at true key_b 0).pos_key pk ≡ lt)
unfolding count_seq push_back push_front push make_pos_key bytes_eq compare_bytes
insert_misplaced_example =
    insert_misplaced toy works clean replica count_seq (pos 0) key_a key_b (ascii "c") []
      (item_at false key_a 2) (item_at true key_b 0) [] 0 3 two_items empty_node two_items-read tt
      refl refl refl refl refl (ap ok two_items-length) (omega arith) (omega arith)
