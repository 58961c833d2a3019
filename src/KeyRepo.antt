-- ===== src/KeyRepo.antt =====
-- crdtstore/rkey.go: the keys of a logical database. An operation holds the locks of its keys, and so
-- is one step, but DeleteAll, Keys and the like, which go from key to key. deleteKey and copyKey of
-- keyops.go, which go through the repositories of all types, are the parameter KeyOps, glob matching
-- (tidwall/match) and the random index are arguments.
pub mod Listing
use redgeo.Base.{
  Bytes, bytes_eq, ascii, ℤ, pos, length, get_or, contains, sort, ◌==◌, if◌then◌else◌, ℕ, ◌+◌, ◌*◌,
  Bool, true, false, ◌||◌, Option, none, some, List, [], ◌∷◌,
}
use redgeo.Exec.{Exec, ok, err, pure, raise, ◌>>=◌, ◌>>◌, not_found}
use redgeo.Keyspace.{Keyspace, trim_prefix, is_some}
use redgeo.Keys.{db_meta_prefixes}
use redgeo.Keys.Base32.{dec_seg}
use redgeo.Meta.{Meta}
use redgeo.Txn.{Entry}
use redgeo.Counters.{add64}
use redgeo.StrRepo.{Registers, milliseconds}

-- copyKey is handed the key's expiry too, which it can read itself in the same step.
pub record KeyOps (S : Type 0) : Type 0 where
  pub delete_key : Bytes → ℕ → Exec S (Unit {0})
  pub copy_key : Bytes → Bytes → ℕ → Exec S (Unit {0})

-- the part before the first slash
unfoldable pub before_slash : Bytes → Bytes
before_slash [] = []
before_slash (c ∷ cs) = let rest = before_slash cs in if c == b'/' then [] else c ∷ rest

-- a name that is listed, with its type
abbrev pub Key : Type 0
Key = Bytes × ℕ

module _ {S : Type 0} (ks : Keyspace S) (regs : Registers S) (ops : KeyOps S) (db : ℤ) where
  -- The inner loop of listKeys: the names seen, and the live keys, the last one first; listKeys sorts them.
  unfoldable pub list_entries :
      Bytes → List Bytes → List Bytes → List Entry → Exec S (List Bytes × List Bytes)
  unfolding before_slash trim_prefix
  list_entries prefix seen keys [] s = (ok (seen, keys), s)
  list_entries prefix seen keys (e ∷ entries) s =
      elim (dec_seg (before_slash (trim_prefix e.key prefix))) [
        | none ↦ list_entries prefix seen keys entries s
        | some key ↦ elim (contains seen key) [
          | true ↦ list_entries prefix seen keys entries s
          | false ↦ elim (ks.probe key s).0 [
            | err e ↦ (err e, (ks.probe key s).1)
            | ok none ↦ list_entries prefix (key ∷ seen) keys entries (ks.probe key s).1
            | ok (some t) ↦ list_entries prefix (key ∷ seen) (key ∷ keys) entries (ks.probe key s).1
          ]
        ]
      ]

  unfoldable pub list_prefixes : List Bytes → List Bytes → List Bytes → Exec S (List Bytes)
  unfolding list_entries
  list_prefixes seen keys [] = pure keys
  list_prefixes seen keys (prefix ∷ prefixes) = do
    entries ← ks.query prefix true
    found ← list_entries prefix seen keys entries
    list_prefixes found.0 found.1 prefixes

  -- listKeys
  unfoldable pub list_keys : Exec S (List Bytes)
  unfolding list_prefixes
  list_keys = do keys ← list_prefixes [] [] (db_meta_prefixes db); pure (sort keys)

  unfoldable pub get : Bytes → Exec S ℕ
  get key = do found ← ks.probe key; elim found [ none ↦ raise not_found | some t ↦ pure t ]

  unfoldable pub exists : Bytes → Exec S Bool
  exists key = do found ← ks.probe key; pure (is_some found)

  unfoldable pub count_from : ℕ → List Bytes → Exec S ℕ
  unfolding exists
  count_from n [] = pure n
  count_from n (key ∷ keys) = do there ← exists key; count_from (if there then n + 1 else n) keys

  unfoldable pub count : List Bytes → Exec S ℕ
  unfolding count_from
  count keys = count_from 0 keys

  unfoldable pub len : Exec S ℕ
  unfolding list_keys
  len = do keys ← list_keys; pure (length keys)

  delete_found : Bytes → ℕ → Option ℕ → Exec S ℕ
  delete_found key n none = pure n
  delete_found key n (some t) = do ops.delete_key key t; pure (n + 1)

  unfoldable pub delete_from : ℕ → List Bytes → Exec S ℕ
  unfolding delete_found
  delete_from n [] = pure n
  delete_from n (key ∷ keys) = do
    found ← ks.probe key
    n' ← delete_found key n found
    delete_from n' keys

  unfoldable pub delete : List Bytes → Exec S ℕ
  unfolding delete_from
  delete keys = delete_from 0 keys

  unfoldable pub delete_all : Exec S (Unit {0})
  unfolding list_keys delete
  delete_all = do keys ← list_keys; delete keys; pure tt

  -- setETime, of a live key with its metadata
  unfoldable pub renew : Bytes → ℤ → Option ℕ → Option Meta → Exec S (Unit {0})
  renew key etime_ms none m = raise not_found
  renew key etime_ms (some t) none = raise not_found
  renew key etime_ms (some t) (some m) = ks.write_meta key (record m { etime_ms = etime_ms })

  unfoldable pub set_etime : Bytes → ℤ → Exec S (Unit {0})
  unfolding renew
  set_etime key etime_ms = do
    found ← ks.probe key
    elim found [
      | none ↦ raise not_found
      | some t ↦ (do m ← regs.read_meta key; renew key etime_ms (some t) m)
    ]

  -- Expire, with the duration in nanoseconds
  unfoldable pub expire : Bytes → ℤ → Exec S (Unit {0})
  unfolding set_etime add64 milliseconds
  expire key ttl s = set_etime key (add64 (regs.now_ms s) (milliseconds ttl)) s

  -- ExpireAt, with the time in Unix milliseconds
  unfoldable pub expire_at : Bytes → ℤ → Exec S (Unit {0})
  unfolding set_etime
  expire_at key at_ms = set_etime key at_ms

  unfoldable pub persist : Bytes → Exec S (Unit {0})
  unfolding set_etime
  persist key = set_etime key (pos 0)

  -- what Keys lets through
  unfoldable pub is_wanted : (Bytes → Bytes → Bool) → Bytes → Bytes → Bool
  is_wanted is_match pattern name =
      bytes_eq pattern (ascii "*") || length pattern == 0 || is_match name pattern

  unfoldable pub keep_key : Bytes → Option ℕ → List Key → List Key
  keep_key name none rest = rest
  keep_key name (some t) rest = (name, t) ∷ rest

  unfoldable pub keys_from : (Bytes → Bytes → Bool) → Bytes → List Bytes → Exec S (List Key)
  unfolding is_wanted keep_key
  keys_from is_match pattern [] = pure []
  keys_from is_match pattern (name ∷ names) =
      if is_wanted is_match pattern name
      then (do
        found ← ks.probe name
        rest ← keys_from is_match pattern names
        pure (keep_key name found rest))
      else keys_from is_match pattern names

  -- Keys
  unfoldable pub keys : (Bytes → Bytes → Bool) → Bytes → Exec S (List Key)
  unfolding list_keys keys_from
  keys is_match pattern = do names ← list_keys; keys_from is_match pattern names

  -- Random: the name, and its type if it still lives
  unfoldable pub random : (ℕ → ℕ) → Exec S (Bytes × Option ℕ)
  unfolding list_keys
  random draw = do
    names ← list_keys
    if length names == 0 then raise not_found else (do
      found ← ks.probe (get_or names (draw (length names)) [])
      pure (get_or names (draw (length names)) [], found))

  rename_found : Bytes → Bytes → Option ℕ → Exec S (Unit {0})
  rename_found key new_name none = raise not_found
  rename_found key new_name (some t) = do ops.copy_key key new_name t; ops.delete_key key t

  unfoldable pub rename : Bytes → Bytes → Exec S (Unit {0})
  unfolding exists rename_found
  rename key new_name =
      if bytes_eq key new_name
      then (do there ← exists key; if there then pure tt else raise not_found)
      else (do found ← ks.probe key; rename_found key new_name found)

  unfoldable pub rename_not_exists : Bytes → Bytes → Exec S Bool
  unfolding exists rename
  rename_not_exists key new_name = do
    there ← exists new_name
    if there then pure false else (do rename key new_name; pure true)
