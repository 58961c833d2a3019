-- ===== src/Commands/Lists.antt =====
-- command/list: the commands of lists, parsed and run.
use redgeo.Base.{
  Bytes, bytes_eq, ascii, ℤ, ltz, pos, if◌then◌else◌, ℕ, Bool, true, false, List, [], ◌∷◌,
}
use redgeo.Exec.{Error, Exec, Result, ok, err, not_found, pure, ◌>>=◌}
use redgeo.Keyspace.{Keyspace}
use redgeo.Parser.{Parser, string, int, strings, enum}
use redgeo.ListRepo.{
  push_back, push_front, pop, len, get_at, set_at, range, insert_at, delete_all, delete_front,
  delete_back, trim, pop_back_push_front, neg64,
}
use redgeo.ListRepo.Position.{Floats}
use redgeo.Commands.{
  Reply, write_int, write_string, write_error, write_out_of_range, Parsed, parse, reply_array,
  reply_count, reply_elem, replying,
}

-- LPush and RPush
pub record Push : Type 0 where
  pub key : Bytes
  pub elems : List Bytes

-- LIndex
pub record Index : Type 0 where
  pub key : Bytes
  pub index : ℤ

-- LSet
pub record SetElem : Type 0 where
  pub key : Bytes
  pub index : ℤ
  pub elem : Bytes

-- LRange and LTrim
pub record Range : Type 0 where
  pub key : Bytes
  pub start : ℤ
  pub stop : ℤ

-- LRem
pub record Remove : Type 0 where
  pub key : Bytes
  pub count : ℤ
  pub elem : Bytes

-- LInsert
pub record Insert : Type 0 where
  pub key : Bytes
  pub place : Bytes
  pub pivot : Bytes
  pub elem : Bytes

-- RPopLPush
pub record PopPush : Type 0 where
  pub src : Bytes
  pub dst : Bytes

abbrev pub push_parsers : List (Parser Push)
push_parsers =
    string (λ a c. record c { key = a }) ∷ strings (λ rest c. record c { elems = rest }) ∷ []

unfoldable pub parse_lpush : List Bytes → Parsed Push
unfolding parse
parse_lpush args = parse 2 push_parsers (record { key = []; elems = [] }) args

unfoldable pub parse_rpush : List Bytes → Parsed Push
unfolding parse
parse_rpush args = parse 2 push_parsers (record { key = []; elems = [] }) args

unfoldable pub parse_lpop : List Bytes → Parsed Bytes
unfolding parse
parse_lpop args = parse 1 (string (λ a c. a) ∷ []) [] args

unfoldable pub parse_rpop : List Bytes → Parsed Bytes
unfolding parse
parse_rpop args = parse 1 (string (λ a c. a) ∷ []) [] args

unfoldable pub parse_llen : List Bytes → Parsed Bytes
unfolding parse
parse_llen args = parse 1 (string (λ a c. a) ∷ []) [] args

unfoldable pub parse_lindex : List Bytes → Parsed Index
unfolding parse
parse_lindex args =
    parse 2 (string (λ a c. record c { key = a }) ∷ int (λ n c. record c { index = n }) ∷ [])
      (record { key = []; index = pos 0 }) args

unfoldable pub parse_lset : List Bytes → Parsed SetElem
unfolding parse
parse_lset args =
    parse 3
      (string (λ a c. record c { key = a })
        ∷ int (λ n c. record c { index = n })
        ∷ string (λ a c. record c { elem = a })
        ∷ [])
      (record { key = []; index = pos 0; elem = [] }) args

abbrev pub range_parsers : List (Parser Range)
range_parsers =
    string (λ a c. record c { key = a })
    ∷ int (λ n c. record c { start = n })
    ∷ int (λ n c. record c { stop = n })
    ∷ []

unfoldable pub parse_lrange : List Bytes → Parsed Range
unfolding parse
parse_lrange args = parse 3 range_parsers (record { key = []; start = pos 0; stop = pos 0 }) args

unfoldable pub parse_ltrim : List Bytes → Parsed Range
unfolding parse
parse_ltrim args = parse 3 range_parsers (record { key = []; start = pos 0; stop = pos 0 }) args

unfoldable pub parse_lrem : List Bytes → Parsed Remove
unfolding parse
parse_lrem args =
    parse 3
      (string (λ a c. record c { key = a })
        ∷ int (λ n c. record c { count = n })
        ∷ string (λ a c. record c { elem = a })
        ∷ [])
      (record { key = []; count = pos 0; elem = [] }) args

unfoldable pub parse_linsert : List Bytes → Parsed Insert
unfolding parse
parse_linsert args =
    parse 4
      (string (λ a c. record c { key = a })
        ∷ enum (λ a c. record c { place = a }) (ascii "before" ∷ ascii "after" ∷ [])
        ∷ string (λ a c. record c { pivot = a })
        ∷ string (λ a c. record c { elem = a })
        ∷ [])
      (record { key = []; place = []; pivot = []; elem = [] }) args

unfoldable pub parse_rpoplpush : List Bytes → Parsed PopPush
unfolding parse
parse_rpoplpush args =
    parse 2 (string (λ a c. record c { src = a }) ∷ string (λ a c. record c { dst = a }) ∷ [])
      (record { src = []; dst = [] }) args

unfoldable pub reply_ok : {A : Type 0} → (Error → Reply) → Result A → List Reply
reply_ok missing (ok a) = write_string (ascii "OK") ∷ []
reply_ok missing (err e) = missing e ∷ []

-- LSet of an index that is not there
unfoldable pub out_of_range : Error → Reply
out_of_range not_found = write_out_of_range
out_of_range e = write_error e

unfoldable pub reply_inserted : Result ℤ → List Reply
reply_inserted (ok n) = write_int n ∷ []
reply_inserted (err not_found) = write_int (pos 0) ∷ []
reply_inserted (err e) = write_error e ∷ []

module _ {F S : Type 0} (fl : Floats F) (ks : Keyspace S) (new_key : Bytes → Bytes)
    (replica : Bytes) (next_seq : Exec S ℕ) (db : ℤ) where
  -- The loop of LPush.Run and RPush.Run: the answer of the last push.
  unfoldable pub push_loop : Bool → Bytes → ℕ → List Bytes → Exec S ℕ
  push_loop front key n [] = pure n
  push_loop front key n (e ∷ elems) = do
    n' ←
        (if front
          then push_front fl ks new_key replica next_seq db key e
          else push_back fl ks new_key replica next_seq db key e)
    push_loop front key n' elems

  unfoldable pub run_lpush : Push → S → List Reply × S
  unfolding push_loop reply_count
  run_lpush c = replying reply_count (push_loop true c.key 0 c.elems)

  unfoldable pub run_rpush : Push → S → List Reply × S
  unfolding push_loop reply_count
  run_rpush c = replying reply_count (push_loop false c.key 0 c.elems)

  unfoldable pub run_lpop : Bytes → S → List Reply × S
  unfolding reply_elem
  run_lpop key = replying reply_elem (pop fl ks new_key replica next_seq db key true)

  unfoldable pub run_rpop : Bytes → S → List Reply × S
  unfolding reply_elem
  run_rpop key = replying reply_elem (pop fl ks new_key replica next_seq db key false)

  unfoldable pub run_llen : Bytes → S → List Reply × S
  unfolding reply_count
  run_llen key = replying reply_count (len fl ks new_key replica next_seq db key)

  unfoldable pub run_lindex : Index → S → List Reply × S
  unfolding reply_elem
  run_lindex c = replying reply_elem (get_at fl ks new_key replica next_seq db c.key c.index)

  unfoldable pub run_lset : SetElem → S → List Reply × S
  unfolding reply_ok out_of_range
  run_lset c =
      replying (reply_ok out_of_range)
        (set_at fl ks new_key replica next_seq db c.key c.index c.elem)

  unfoldable pub run_lrange : Range → S → List Reply × S
  unfolding reply_array
  run_lrange c = replying reply_array (range fl ks new_key replica next_seq db c.key c.start c.stop)

  unfoldable pub run_ltrim : Range → S → List Reply × S
  unfolding reply_ok
  run_ltrim c =
      replying (reply_ok write_error) (trim fl ks new_key replica next_seq db c.key c.start c.stop)

  unfoldable pub removal : Remove → Exec S ℕ
  unfolding neg64
  removal c =
      if ltz (pos 0) c.count
      then delete_front fl ks new_key replica next_seq db c.key c.elem c.count
      else if ltz c.count (pos 0)
      then delete_back fl ks new_key replica next_seq db c.key c.elem (neg64 c.count)
      else delete_all fl ks new_key replica next_seq db c.key c.elem

  unfoldable pub run_lrem : Remove → S → List Reply × S
  unfolding removal reply_count
  run_lrem c = replying reply_count (removal c)

  unfoldable pub run_linsert : Insert → S → List Reply × S
  unfolding reply_inserted
  run_linsert c = replying reply_inserted (
      insert_at fl ks new_key replica next_seq db c.key c.pivot c.elem
        (bytes_eq c.place (ascii "before")))

  unfoldable pub run_rpoplpush : PopPush → S → List Reply × S
  unfolding reply_elem
  run_rpoplpush c =
      replying reply_elem (pop_back_push_front fl ks new_key replica next_seq db c.src c.dst)
