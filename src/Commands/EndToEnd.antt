-- ===== src/Commands/EndToEnd.antt =====
-- command/set over crdtstore/rset.go: from the arguments of a command to its reply and its effect.
use redgeo.Base.{
  Bytes, bytes_eq, ℤ, pos, length, All, contains, ltb, ◌==◌, if◌then◌else◌, Option-cases, ℕ, suc,
  ◌≡◌, refl, sym, ap, ◌∙◌, inl, inr, Bool, true, false, not, ◌&&◌, ◌||◌, Option, none, some, List,
  [], ◌∷◌, arith,
}
use redgeo.Exec.{ok, err, not_found}
use redgeo.Keyspace.{Keyspace, Works}
use redgeo.Keyspace.{is_some}
use redgeo.Locks.{LockManager, lock_key, lock_pair, shard_for, lock_pair_iff}
use redgeo.SetRepo.{move, move_held}
use redgeo.Keys.Paths.{Cleans, IsName}
use redgeo.Parser.{string, strings}
use redgeo.Parser.Pipeline.{run, rounds, try_parsers}
use redgeo.SetRepo.Contents.{contents, Canonical}
use redgeo.SetRepo.Steps.{fresh, Shows, IsSetKey}
use redgeo.SetRepo.Update.{add-refines, move-refines}
use redgeo.Commands.{Reply, write_int, parsed, parse, as_parsed, reply_count}
use redgeo.Commands.Sets.{Members, Move, parse_sadd, parse_smove, run_sadd, run_smove, reply_moved}

parse_sadd-args :
    (key m : Bytes) (ms : List Bytes)
    → parse_sadd (key ∷ m ∷ ms) ≡ parsed (record { key = key; members = m ∷ ms })
unfolding parse_sadd parse run rounds try_parsers string strings as_parsed
parse_sadd-args key m ms =
    let enough : ltb (suc (suc (length ms))) 2 ≡ false = ground arith in rw enough refl

parse_smove-args :
    (src dest m : Bytes)
    → parse_smove (src ∷ dest ∷ m ∷ []) ≡ parsed (record { src = src; dest = dest; member = m })
unfolding parse_smove parse run rounds try_parsers string strings as_parsed
parse_smove-args src dest m = refl

reply_moved-if :
    (had : Bool)
    → reply_moved (if had then ok tt else err not_found)
      ≡ write_int (if had then pos 1 else pos 0) ∷ []
unfolding reply_moved
reply_moved-if true = refl
reply_moved-if false = refl

module _ {S : Type 0} {ks : Keyspace S} {view : S → Bytes → Option Bytes}
    {kind : S → Bytes → Option ℕ} (works : Works ks view kind) {new_key : Bytes → Bytes}
    (cleans : Cleans new_key) (db : ℤ) where
  -- SADD with a key and any number of members is parsed as such. Run, it replies with the number of
  -- the members that the set did not have, each counted once; the set then has them all, and no other
  -- set has changed. The datastore works, the key holds a set or nothing, no argument is empty, and
  -- only members are stored under sets.
  pub sadd_replies :
      (key m : Bytes) (ms : List Bytes) (s : S)
      → IsName key
      → All IsName (m ∷ ms)
      → Canonical works cleans db s
      → IsSetKey works cleans db s key
      → (c : Members) × (parse_sadd (key ∷ m ∷ ms) ≡ parsed c)
        × ((run_sadd ks new_key db c s).0
            ≡ write_int (pos (fresh (contents works cleans db s key) (m ∷ ms))) ∷ [])
        × Shows works cleans db (run_sadd ks new_key db c s).1 (λ key' x.
          (bytes_eq key key' && contains (m ∷ ms) x) || contents works cleans db s key' x)
  unfolding run_sadd reply_count
  sadd_replies key m ms s h names canonical set =
      let (count, shows) = add-refines works cleans db key (m ∷ ms) s h names canonical set in
      (
        record { key = key; members = m ∷ ms },
        parse_sadd-args key m ms,
        ap reply_count count,
        shows,
      )

  after_locks : List Reply × S → Option LockManager → Option (List Reply × S)
  after_locks r none = none
  after_locks r (some held) = some r

  run_smove-locked :
      (locks : LockManager) (c : Move) (s : S) (o : Option LockManager)
      → lock_pair db c.src c.dest locks ≡ o
      → run_smove ks new_key db locks c s
        ≡ after_locks
            (
              reply_moved (move_held ks new_key db c.src c.dest c.member s).0,
              (move_held ks new_key db c.src c.dest c.member s).1,
            )
            o
  unfolding run_smove move after_locks
  run_smove-locked locks c s none waits = rw (waits, run_smove, move) refl
  run_smove-locked locks c s (some held) got = rw (got, run_smove, move) refl

  -- SMOVE, run by a client alone on the node, waits for ever where both keys have one mutex. Otherwise
  -- it replies 1 where the source had the member, and the member has then left the source and come to
  -- the destination; it replies 0 and changes no set where it had not. Both keys hold a set or
  -- nothing, on the conditions of SADD.
  pub smove_replies :
      (locks : LockManager) (src dest m : Bytes) (s : S)
      → locks.held ≡ []
      → IsName src
      → IsName dest
      → IsName m
      → Canonical works cleans db s
      → IsSetKey works cleans db s src
      → IsSetKey works cleans db s dest
      → (c : Move) × (parse_smove (src ∷ dest ∷ m ∷ []) ≡ parsed c)
        × (s' : S) × (run_smove ks new_key db locks c s ≡ (
            if shard_for locks.mask (lock_key db src) == shard_for locks.mask (lock_key db dest)
            then none
            else some
                (write_int (if contents works cleans db s src m then pos 1 else pos 0) ∷ [], s')))
        × Shows works cleans db s' (λ key x.
          if contents works cleans db s src m
          then (bytes_eq dest key && bytes_eq m x)
            || (contents works cleans db s key x && not (bytes_eq src key && bytes_eq m x))
          else contents works cleans db s key x)
  unfolding after_locks
  smove_replies locks src dest m s free h h' k canonical set set' =
      let (done, shows) = move-refines works cleans db src dest m s h h' k canonical set set' in
      let c : Move = record { src = src; dest = dest; member = m } in
      let r = move_held ks new_key db src dest m s in
      let can = lock_pair_iff db src dest locks free in
      (
        c,
        parse_smove-args src dest m,
        r.1,
        elim (Option-cases (lock_pair db src dest locks)) [
          | inl waits ↦
              let one : (shard_for locks.mask (lock_key db src)
                    == shard_for locks.mask (lock_key db dest))
                  ≡ true =
                not_false (sym can ∙ ap is_some waits) in
              rw (run_smove-locked locks c s none waits, one) refl
          | inr (held, got) ↦
              let two : (shard_for locks.mask (lock_key db src)
                    == shard_for locks.mask (lock_key db dest))
                  ≡ false =
                not_true (sym can ∙ ap is_some got) in
              rw (run_smove-locked locks c s (some held) got, two)
                (ap (λ reply. some (reply, r.1))
                  (ap reply_moved done ∙ reply_moved-if (contents works cleans db s src m)))
        ],
        shows,
      )
    where
      not_false : {b : Bool} → not b ≡ false → b ≡ true
      not_false {b = b} e = ground (arith, e)

      not_true : {b : Bool} → not b ≡ true → b ≡ false
      not_true {b = b} e = ground (arith, e)
