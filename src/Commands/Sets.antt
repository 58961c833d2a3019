-- ===== src/Commands/Sets.antt =====
-- command/set: the commands of sets, parsed and run.
use redgeo.Base.{
  Bytes, ascii, ℤ, pos, length, ◌==◌, if◌then◌else◌, ℕ, Bool, Option, none, some, List, [], ◌∷◌,
}
use redgeo.Exec.{Result, ok, err, not_found}
use redgeo.Keyspace.{Keyspace}
use redgeo.Parser.{Parser, string, int, strings, named}
use redgeo.SetRepo.{
  add, delete, exists, items, len, random, pop, move, diff, inter, union, diff_store, inter_store,
  union_store, scan,
}
use redgeo.Scan.{ResumeTable}
use redgeo.Locks.{LockManager}
use redgeo.Commands.{
  Reply, write_int, write_array, write_error, Parsed, parsed, refused, parse, parse_key,
  reply_array, reply_count, reply_elem, replying, write_bulks,
}

-- SAdd and SRem
pub record Members : Type 0 where
  pub key : Bytes
  pub members : List Bytes

-- SIsMember
pub record Member : Type 0 where
  pub key : Bytes
  pub member : Bytes

-- SMove
pub record Move : Type 0 where
  pub src : Bytes
  pub dest : Bytes
  pub member : Bytes

-- SDiffStore, SInterStore and SUnionStore
pub record StoreSets : Type 0 where
  pub dest : Bytes
  pub keys : List Bytes

-- SScan
pub record ScanSet : Type 0 where
  pub key : Bytes
  pub cursor : ℤ
  pub pattern : Bytes
  pub count : ℤ

abbrev pub members_parsers : List (Parser Members)
members_parsers =
    string (λ a c. record c { key = a }) ∷ strings (λ rest c. record c { members = rest }) ∷ []

unfoldable pub parse_sadd : List Bytes → Parsed Members
unfolding parse
parse_sadd args = parse 2 members_parsers (record { key = []; members = [] }) args

unfoldable pub parse_srem : List Bytes → Parsed Members
unfolding parse
parse_srem args = parse 2 members_parsers (record { key = []; members = [] }) args

unfoldable pub parse_sismember : List Bytes → Parsed Member
unfolding parse
parse_sismember args =
    parse 2 (string (λ a c. record c { key = a }) ∷ string (λ a c. record c { member = a }) ∷ [])
      (record { key = []; member = [] }) args

unfoldable pub parse_smove : List Bytes → Parsed Move
unfolding parse
parse_smove args =
    parse 3
      (string (λ a c. record c { src = a })
        ∷ string (λ a c. record c { dest = a })
        ∷ string (λ a c. record c { member = a })
        ∷ [])
      (record { src = []; dest = []; member = [] }) args

abbrev pub keys_parsers : List (Parser (List Bytes))
keys_parsers = strings (λ rest c. rest) ∷ []

unfoldable pub parse_sdiff : List Bytes → Parsed (List Bytes)
unfolding parse
parse_sdiff args = parse 1 keys_parsers [] args

unfoldable pub parse_sinter : List Bytes → Parsed (List Bytes)
unfolding parse
parse_sinter args = parse 1 keys_parsers [] args

unfoldable pub parse_sunion : List Bytes → Parsed (List Bytes)
unfolding parse
parse_sunion args = parse 1 keys_parsers [] args

abbrev pub store_parsers : List (Parser StoreSets)
store_parsers =
    string (λ a c. record c { dest = a }) ∷ strings (λ rest c. record c { keys = rest }) ∷ []

unfoldable pub parse_sdiffstore : List Bytes → Parsed StoreSets
unfolding parse
parse_sdiffstore args = parse 2 store_parsers (record { dest = []; keys = [] }) args

unfoldable pub parse_sinterstore : List Bytes → Parsed StoreSets
unfolding parse
parse_sinterstore args = parse 2 store_parsers (record { dest = []; keys = [] }) args

unfoldable pub parse_sunionstore : List Bytes → Parsed StoreSets
unfolding parse
parse_sunionstore args = parse 2 store_parsers (record { dest = []; keys = [] }) args

unfoldable pub parse_scard : List Bytes → Parsed Bytes
unfolding parse_key
parse_scard args = parse_key args

unfoldable pub parse_smembers : List Bytes → Parsed Bytes
unfolding parse_key
parse_smembers args = parse_key args

unfoldable pub parse_spop : List Bytes → Parsed Bytes
unfolding parse_key
parse_spop args = parse_key args

unfoldable pub parse_srandmember : List Bytes → Parsed Bytes
unfolding parse_key
parse_srandmember args = parse_key args

all_by_default : Parsed ScanSet → Parsed ScanSet
all_by_default (refused e) = refused e
all_by_default (parsed c) =
    parsed (if length c.pattern == 0 then record c { pattern = ascii "*" } else c)

unfoldable pub parse_sscan : List Bytes → Parsed ScanSet
unfolding parse all_by_default
parse_sscan args = all_by_default (
    parse 2
      (string (λ a c. record c { key = a })
        ∷ int (λ n c. record c { cursor = n })
        ∷ named (ascii "match") (string (λ a c. record c { pattern = a }) ∷ [])
        ∷ named (ascii "count") (int (λ n c. record c { count = n }) ∷ [])
        ∷ [])
      (record { key = []; cursor = pos 0; pattern = []; count = pos 0 }) args)

-- SMove answers whether there was a member to move.
unfoldable pub reply_moved : Result (Unit {0}) → List Reply
reply_moved (ok u) = write_int (pos 1) ∷ []
reply_moved (err not_found) = write_int (pos 0) ∷ []
reply_moved (err e) = write_error e ∷ []

unfoldable pub reply_bool : Result Bool → List Reply
reply_bool (ok b) = write_int (if b then pos 1 else pos 0) ∷ []
reply_bool (err e) = write_error e ∷ []

unfoldable pub reply_page : Result (List Bytes × (ℤ × ResumeTable)) → List Reply
unfolding write_bulks
reply_page (ok (vals, (cursor, table))) =
    write_array 2 ∷ write_int cursor ∷ write_array (length vals) ∷ write_bulks vals
reply_page (err e) = write_error e ∷ []

module _ {S : Type 0} (ks : Keyspace S) (new_key : Bytes → Bytes) (db : ℤ) where
  unfoldable pub run_sadd : Members → S → List Reply × S
  unfolding reply_count
  run_sadd c = replying reply_count (add ks new_key db c.key c.members)

  unfoldable pub run_srem : Members → S → List Reply × S
  unfolding reply_count
  run_srem c = replying reply_count (delete ks new_key db c.key c.members)

  unfoldable pub run_sismember : Member → S → List Reply × S
  unfolding reply_bool
  run_sismember c = replying reply_bool (exists ks new_key db c.key c.member)

  unfoldable pub run_smembers : Bytes → S → List Reply × S
  unfolding reply_array
  run_smembers key = replying reply_array (items ks new_key db key)

  unfoldable pub run_scard : Bytes → S → List Reply × S
  unfolding reply_count
  run_scard key = replying reply_count (len ks new_key db key)

  unfoldable pub run_srandmember : (ℕ → ℕ) → Bytes → S → List Reply × S
  unfolding reply_elem
  run_srandmember draw key = replying reply_elem (random ks new_key db draw key)

  unfoldable pub run_spop : (ℕ → ℕ) → Bytes → S → List Reply × S
  unfolding reply_elem
  run_spop draw key = replying reply_elem (pop ks new_key db draw key)

  -- `none` waits for a lock
  unfoldable pub run_smove : LockManager → Move → S → Option (List Reply × S)
  unfolding reply_moved move
  run_smove locks c s = elim (move ks new_key db locks c.src c.dest c.member s) [
    | none ↦ none
    | some r ↦ some (reply_moved r.0, r.1)
  ]

  unfoldable pub run_sdiff : List Bytes → S → List Reply × S
  unfolding reply_array
  run_sdiff keys = replying reply_array (diff ks new_key db keys)

  unfoldable pub run_sinter : List Bytes → S → List Reply × S
  unfolding reply_array
  run_sinter keys = replying reply_array (inter ks new_key db keys)

  unfoldable pub run_sunion : List Bytes → S → List Reply × S
  unfolding reply_array
  run_sunion keys = replying reply_array (union ks new_key db keys)

  unfoldable pub run_sdiffstore : StoreSets → S → List Reply × S
  unfolding reply_count
  run_sdiffstore c = replying reply_count (diff_store ks new_key db c.dest c.keys)

  unfoldable pub run_sinterstore : StoreSets → S → List Reply × S
  unfolding reply_count
  run_sinterstore c = replying reply_count (inter_store ks new_key db c.dest c.keys)

  unfoldable pub run_sunionstore : StoreSets → S → List Reply × S
  unfolding reply_count
  run_sunionstore c = replying reply_count (union_store ks new_key db c.dest c.keys)

  -- the wall clock, the glob matcher and the resume table are arguments
  unfoldable pub run_sscan : ℤ → (Bytes → Bytes → Bool) → ResumeTable → ScanSet → S → List Reply × S
  unfolding reply_page
  run_sscan now glob rt c = replying reply_page (
      scan ks new_key db now
        (record { db = db; key = c.key; count = c.count; pattern = c.pattern; glob = glob })
        c.cursor rt)
