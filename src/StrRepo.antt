-- ===== src/StrRepo.antt =====
-- crdtstore/rstring.go: strings and counters. An operation holds the lock of its key, and so is one
-- step in which the wall clock stands still; a value is its bytes (core.ToBytes). HyperLogLogs and
-- bitmaps, which strings read and replace, are the parameter Sketches.
pub mod Incr
pub mod Guards
pub mod Stored
use redgeo.Base.{
  Bytes, ℤ, ◌-ℤ◌, ltz, pos, negsuc, get_or, Map, insert, ◌==◌, if◌then◌else◌, ℕ, ◌+◌, ◌/◌, ◌≡◌, ap,
  Bool, true, false, not, ◌&&◌, Option, none, some, List, [], ◌∷◌, bytes_key,
}
use redgeo.Exec.{
  Error, Result, ok, err, Exec, pure, raise, ◌>>=◌, ◌>>◌, not_found, key_type, value_type,
}
use redgeo.Keyspace.{Keyspace, type_string}
use redgeo.Keys.{str_base, str_slot, decimal}
use redgeo.Meta.{
  Meta, is_counter, is_hll, flavor_none, flavor_string, flavor_counter, flavor_counter_float,
  flavor_bitmap, flavor_hll_dense,
}
use redgeo.Slot.{Cands, live_value, tag_present}
use redgeo.Counters.{
  Number, add64, counter_sum, counter_sum_int, counter_exists, incr_int, incr_float,
}

-- crdtstore/store.go and meta.go, as strings use them; the wall clock in milliseconds
pub record Registers (S : Type 0) : Type 0 where
  pub read_meta : Bytes → Exec S (Option Meta)
  pub read_slots : Bytes → Exec S Cands
  pub write_slot : Bytes → ℕ → Bytes → Exec S (Unit {0})
  pub now_ms : S → ℤ

-- The value of a HyperLogLog or a bitmap, its deletion, and the sketch that a value decodes to.
pub record Sketches (S : Type 0) : Type 0 where
  pub load_hll : Bool → Bytes → Exec S Bytes
  pub load_bitmap : Bytes → Exec S Bytes
  pub delete_hll : Bytes → Exec S (Unit {0})
  pub delete_bitmap : Bytes → Exec S (Unit {0})
  pub is_redis_hll : Bytes → Bool
  pub store_hll : Bytes → Bytes → ℤ → Bool → Exec S (Unit {0})

-- restypes.SetOpts and SetOut
pub record SetOpts : Type 0 where
  pub ttl_ms : ℤ
  pub at_ms : ℤ
  pub keep_ttl : Bool
  pub if_exists : Bool
  pub if_not_exists : Bool
  pub get : Bool

pub record SetOut : Type 0 where
  pub prev : Bytes
  pub created : Bool
  pub updated : Bool

-- Duration.Milliseconds
unfoldable pub milliseconds : ℤ → ℤ
milliseconds (pos n) = pos (n / 1000000)
milliseconds (negsuc n) = pos 0 -ℤ pos ((n + 1) / 1000000)

-- `if v, err := m; err == nil`, with a value that stands for an error
abbrev pub or_else : {S A : Type 0} → A → Exec S A → Exec S A
or_else a m s = elim (m s).0 [ ok v ↦ (ok v, (m s).1) | err e ↦ (ok a, (m s).1) ]

pub or_else_lem :
    {S A : Type 0} (a : A) (m : Exec S A) (s s' : S) (v : A)
    → m s ≡ (ok v, s')
    → or_else a m s ≡ (ok v, s')
or_else_lem a m s s' v done = rw (ap (λ r. r.0) done, or_else) (ap (λ r. (ok v, r.1)) done)

-- the errors for which MGET replies nil
unfoldable pub is_missing : Error → Bool
is_missing not_found = true
is_missing key_type = true
is_missing _ = false

unfoldable pub flavor_of : Option Meta → ℕ
flavor_of none = flavor_none
flavor_of (some m) = m.flavor

unfoldable pub has_value : Result Bytes → Bool
has_value (ok v) = true
has_value (err e) = false

unfoldable pub is_key_type : Result Bytes → Bool
is_key_type (err key_type) = true
is_key_type _ = false

unfoldable pub value_or_nil : Result Bytes → Bytes
value_or_nil (ok v) = v
value_or_nil (err e) = []

unfoldable pub etime_or : ℤ → Option Meta → ℤ
etime_or etime_ms none = etime_ms
etime_or etime_ms (some m) = m.etime_ms

module _ {S F : Type 0} (ks : Keyspace S) (regs : Registers S) (sketches : Sketches S)
    (float64 : Number F) (new_key : Bytes → Bytes) (replica : Bytes) (db : ℤ) where
  plain_value : Option Bytes → Exec S Bytes
  plain_value none = raise not_found
  plain_value (some v) = pure v

  -- the switch of readValue
  unfoldable pub read_flavor : Bytes → ℕ → Exec S Bytes
  unfolding plain_value counter_sum_int counter_sum
  read_flavor key f =
      if is_hll f
      then sketches.load_hll (f == flavor_hll_dense) key
      else if f == flavor_bitmap
      then sketches.load_bitmap key
      else if f == flavor_counter
      then (do sum ← counter_sum_int ks new_key replica db key; pure (decimal sum))
      else if f == flavor_counter_float
      then (do sum ← counter_sum ks new_key replica db float64 key; pure (float64.format sum))
      else (do cands ← regs.read_slots (str_base db key); plain_value (live_value cands))

  unfoldable pub read_typed : Bytes → Option ℕ → Exec S Bytes
  unfolding read_flavor flavor_of
  read_typed key none = raise not_found
  read_typed key (some t) =
      if t == type_string
      then (do m ← regs.read_meta key; read_flavor key (flavor_of m))
      else raise key_type

  -- readValue, which Get and getLocked call
  unfoldable pub read_value : Bytes → Exec S Bytes
  unfolding read_typed
  read_value key = do found ← ks.probe key; read_typed key found

  -- the loop of GetMany
  unfoldable pub get_many_from : Map Bytes Bytes → List Bytes → Exec S (Map Bytes Bytes)
  unfolding read_value
  get_many_from out [] s = (ok out, s)
  get_many_from out (key ∷ keys) s = elim (read_value key s).0 [
    | ok v ↦ get_many_from (insert key v out) keys (read_value key s).1
    | err e ↦ elim (is_missing e) [
      | true ↦ get_many_from out keys (read_value key s).1
      | false ↦ (err e, (read_value key s).1)
    ]
  ]

  unfoldable pub get_many : List Bytes → Exec S (Map Bytes Bytes)
  unfolding get_many_from
  get_many keys = get_many_from [] keys

  -- What writeString does of the old value, and whether it is a live counter.
  unfoldable pub old_value : Bytes → Option Meta → Exec S Bool
  unfolding counter_exists
  old_value key none = pure false
  old_value key (some m) =
      if is_counter m.flavor
      then or_else false (counter_exists ks new_key replica db key)
      else if is_hll m.flavor
      then (do sketches.delete_hll key; pure false)
      else if m.flavor == flavor_bitmap
      then (do sketches.delete_bitmap key; pure false)
      else pure false

  unfoldable pub write_plain : Bytes → Bytes → ℤ → Exec S (Unit {0})
  write_plain key b etime_ms =
      if sketches.is_redis_hll b then sketches.store_hll key b etime_ms (get_or b 4 0 == 0) else (do
        regs.write_slot (str_slot new_key db key replica) tag_present b
        ks.write_meta key (record {
          type_id = type_string;
          flavor = flavor_string;
          etime_ms = etime_ms;
          epoch = 0;
        }))

  unfoldable pub write_new : Bytes → Bytes → ℤ → Bool → Exec S (Unit {0})
  unfolding write_plain etime_or
  write_new key b etime_ms keep_ttl =
      if keep_ttl
      then (do m ← or_else none (regs.read_meta key); write_plain key b (etime_or etime_ms m))
      else write_plain key b etime_ms

  -- writeString
  unfoldable pub write_string : Bytes → Bytes → ℤ → Bool → Exec S (Unit {0})
  unfolding old_value write_new
  write_string key b etime_ms keep_ttl = do
    m ← or_else none (regs.read_meta key)
    live ← old_value key m
    if live then raise key_type else write_new key b etime_ms keep_ttl

  -- SetExpire, with the duration in nanoseconds
  unfoldable pub set_expire : Bytes → Bytes → ℤ → Exec S (Unit {0})
  unfolding write_string add64 milliseconds
  set_expire key b ttl s =
      write_string key b
        (if ltz (pos 0) ttl then add64 (regs.now_ms s) (milliseconds ttl) else pos 0) false s

  unfoldable pub set : Bytes → Bytes → Exec S (Unit {0})
  unfolding set_expire
  set key b = set_expire key b (pos 0)

  -- SetMany, in the order in which the map is visited
  unfoldable pub set_many : Map Bytes Bytes → Exec S (Unit {0})
  unfolding set
  set_many [] = pure tt
  set_many ((key, b) ∷ items) = do set key b; set_many items

  unfoldable pub etime_of : SetOpts → S → ℤ
  unfolding add64
  etime_of opts s =
      if ltz (pos 0) opts.at_ms
      then opts.at_ms
      else if ltz (pos 0) opts.ttl_ms
      then add64 (regs.now_ms s) opts.ttl_ms
      else pos 0

  -- SetWith after getLocked
  unfoldable pub set_over : Bytes → Bytes → SetOpts → Result Bytes → Exec S SetOut
  unfolding write_string etime_of has_value is_key_type value_or_nil
  set_over key b opts old s =
      let prev = if opts.get then value_or_nil old else [] in
      if opts.get && is_key_type old
      then (err key_type, s)
      else if opts.if_not_exists && has_value old
      then (ok (record { prev = prev; created = false; updated = false }), s)
      else if opts.if_exists && not (has_value old)
      then (ok (record { prev = prev; created = false; updated = false }), s)
      else (do
        write_string key b (etime_of opts s) opts.keep_ttl
        pure (record { prev = prev; created = not (has_value old); updated = has_value old }))
          s

  -- SetWith
  unfoldable pub set_with : Bytes → Bytes → SetOpts → Exec S SetOut
  unfolding read_value set_over
  set_with key b opts s = set_over key b opts (read_value key s).0 (read_value key s).1

  -- counterFlavor: whether the key may be counted
  unfoldable pub counter_typed : Bytes → ℕ → Option ℕ → Exec S (Unit {0})
  unfolding flavor_of
  counter_typed key want none = pure tt
  counter_typed key want (some t) =
      if t == type_string
      then (do
        m ← regs.read_meta key
        if is_counter (flavor_of m) && flavor_of m == want then pure tt else raise value_type)
      else raise key_type

  unfoldable pub counter_flavor : Bytes → ℕ → Exec S (Unit {0})
  unfolding counter_typed
  counter_flavor key want = do found ← ks.probe key; counter_typed key want found

  unfoldable pub keep_etime : Bytes → Exec S ℤ
  unfolding etime_or
  keep_etime key = do m ← regs.read_meta key; pure (etime_or (pos 0) m)

  unfoldable pub incr : Bytes → ℤ → Exec S ℤ
  unfolding counter_flavor keep_etime incr_int
  incr key delta = do
    counter_flavor key flavor_counter
    etime_ms ← keep_etime key
    incr_int ks new_key replica db key delta etime_ms

  unfoldable pub incr_by_float : Bytes → F → Exec S F
  unfolding counter_flavor keep_etime incr_float
  incr_by_float key delta = do
    counter_flavor key flavor_counter_float
    etime_ms ← keep_etime key
    incr_float ks new_key replica db float64 key delta etime_ms
