-- ===== src/Locks.antt =====
-- crdtstore/locks.go and lockKey of crdtstore/codec.go: the pool of mutexes that the keys share. A
-- mutex is not reentrant: who waits for a shard that it holds itself waits for ever.
use redgeo.Base.{
  Bytes, compare_bytes, ascii, ℤ, Ordering-cases, ltb, ◌==◌, if◌then◌else◌, Bool-cases, ℕ, zero,
  suc, ◌+◌, ◌-◌, ◌*◌, ◌^◌, ◌≤◌, Ordering, ◌≡◌, refl, sym, ap, ◌∙◌, inl, inr, Bool, false, not, ◌||◌,
  Option, none, some, List, [], ◌∷◌, ◌++◌, arith,
}
use Prim.Native.Nat.{bit_and}
use native.Mathlib.Nat.{pow-suc}
use redgeo.Keys.{decimal, fnv}
use redgeo.Keyspace.{is_some}

-- the shards that are held, and the mask
pub record LockManager : Type 0 where
  pub held : List ℕ
  pub mask : ℕ

-- for n < nShards { n <<= 1 }
unfoldable pub grow : ℕ → ℕ → ℕ → ℕ
grow zero shards n = n
grow (suc fuel) shards n = if ltb n shards then grow fuel shards (n * 2) else n

-- newLockManager: as many rounds as shards are enough
unfoldable pub new_lock_manager : ℕ → LockManager
unfolding grow
new_lock_manager shards = record { held = []; mask = grow shards shards 1 - 1 }

unfoldable pub shard_for : ℕ → Bytes → ℕ
unfolding fnv
shard_for mask key = bit_and (fnv 2166136261 key) mask

unfoldable pub is_held : ℕ → List ℕ → Bool
is_held shard [] = false
is_held shard (t ∷ held) = shard == t || is_held shard held

-- Lock; `none` waits
unfoldable pub lock : Bytes → LockManager → Option LockManager
unfolding shard_for is_held
lock key m =
    let shard = shard_for m.mask key in
    if is_held shard m.held then none else some (record m { held = shard ∷ m.held })

unfoldable pub release : ℕ → List ℕ → List ℕ
release shard [] = []
release shard (t ∷ held) = if shard == t then held else t ∷ release shard held

-- the func that Lock returns
unfoldable pub unlock : Bytes → LockManager → LockManager
unfolding shard_for release
unlock key m = record m { held = release (shard_for m.mask key) m.held }

unfoldable pub lock_key : ℤ → Bytes → Bytes
unfolding decimal
lock_key db key = decimal db ++ ascii "/" ++ key

unfoldable pub lock_second : Bytes → Option LockManager → Option LockManager
lock_second key none = none
lock_second key (some m) = lock key m

-- The two locks of setRepo.Move and keyRepo.Rename, the smaller name first.
unfoldable pub lock_pair : ℤ → Bytes → Bytes → LockManager → Option LockManager
unfolding lock_second lock_key lock
lock_pair db src dest m =
    let a = lock_key db src in
    let b = lock_key db dest in
    elim (compare_bytes a b) [
      | Ordering.gt ↦ lock_second a (lock b m)
      | _ ↦ lock_second b (lock a m)
    ]

grow_enough : (fuel shards n : ℕ) → shards ≤ n + fuel → 1 ≤ n → shards ≤ grow fuel shards n
unfolding grow
grow_enough zero shards n enough one = omega (arith, enough)
grow_enough (suc fuel) shards n enough one = elim (Bool-cases (ltb n shards)) [
  | inl small ↦
      rw small (grow_enough fuel shards (n * 2) (omega (arith, enough, one)) (omega (arith, one)))
  | inr big ↦ rw big (ground arith)
]

grow_pos : (fuel shards n : ℕ) → 1 ≤ n → 1 ≤ grow fuel shards n
unfolding grow
grow_pos zero shards n one = one
grow_pos (suc fuel) shards n one = elim (Bool-cases (ltb n shards)) [
  | inl small ↦ rw small (grow_pos fuel shards (n * 2) (omega (arith, one)))
  | inr big ↦ rw big one
]

grow_power : (fuel shards k : ℕ) → (j : ℕ) × (grow fuel shards (2 ^ k) ≡ 2 ^ j)
unfolding grow
grow_power zero shards k = (k, refl)
grow_power (suc fuel) shards k = elim (Bool-cases (ltb (2 ^ k) shards)) [
  | inl small ↦
      let (j, e) = grow_power fuel shards (suc k) in
      (j, rw small (ap (grow fuel shards) (sym (pow-suc 2 k)) ∙ e))
  | inr big ↦ (k, rw big refl)
]

-- The pool has a power of two of mutexes, at least as many as asked for: the loop ends in time.
pub new_lock_manager_size :
    (shards : ℕ) → (j : ℕ) × ((new_lock_manager shards).mask + 1 ≡ 2 ^ j) × (shards ≤ 2 ^ j)
unfolding new_lock_manager
new_lock_manager_size shards =
    let (j, e) = grow_power shards shards 0 in
    let enough = grow_enough shards shards 1 (omega arith) (omega arith) in
    let one = grow_pos shards shards 1 (omega arith) in
    (j, omega (arith, e, one), omega (arith, e, enough))

same_not : (i j : ℕ) → not (i == j) ≡ not (j == i)
same_not i j = ground arith

first_lock :
    (a b : Bytes) (m : LockManager)
    → m.held ≡ []
    → is_some (lock_second b (lock a m)) ≡ not (shard_for m.mask b == shard_for m.mask a)
unfolding lock_second lock is_held
first_lock a b m free = rw free (ground arith)

pub lock_pair_iff :
    (db : ℤ) (src dest : Bytes) (m : LockManager)
    → m.held ≡ []
    → is_some (lock_pair db src dest m)
      ≡ not (shard_for m.mask (lock_key db src) == shard_for m.mask (lock_key db dest))
unfolding lock_pair
lock_pair_iff db src dest m free =
    let a = lock_key db src in
    let b = lock_key db dest in
    let swap : not (shard_for m.mask b == shard_for m.mask a)
        ≡ not (shard_for m.mask a == shard_for m.mask b) =
      same_not (shard_for m.mask b) (shard_for m.mask a) in
    elim (Ordering-cases (compare_bytes a b)) [
      | inl less ↦ rw (less, is_some) (first_lock a b m free ∙ swap)
      | inr (inl same) ↦ rw (same, is_some) (first_lock a b m free ∙ swap)
      | inr (inr more) ↦ rw (more, is_some) (first_lock b a m free)
    ]
