-- ===== src/Engine/Gate/Fence.antt =====
-- What the fence promises, over any interleaving of writers, readers and the rotation.
use redgeo.Base.{ℕ, ◌+◌, ◌-◌, ◌<◌, ◌≡◌, refl, Bool, true, false, ◌||◌, arith}
use redgeo.Engine.Gate.{
  Gate, go, open_gate, begin_write, end_write, freeze_start, freeze_check, set_gate,
  set_block_reads,
}

-- The fence with the goroutines that use it: how many writes are between beginWrite and its end, how
-- many freezes wait, and whether a freeze has returned on a gate that was still frozen, and the gate
-- has not been released since.
pub record Fence : Type 0 where
  pub gate : Gate
  pub writing : ℕ
  pub waiting : ℕ
  pub drained : Bool

abbrev pub start : Fence
start = record { gate = open_gate; writing = 0; waiting = 0; drained = false }

-- A step of some goroutine. `refuse` is a wait of a write or a read that ends by its deadline,
-- `give_up` that of a freeze. The gate may be released while a freeze waits.
pub data Step : Fence → Fence → Type 0 where
  admit :
      (f : Fence) (g : Gate)
      → begin_write f.gate ≡ go g
      → Step f (record f { gate = g; writing = f.writing + 1 })
  finish_write :
      (f : Fence)
      → 0 < f.writing
      → Step f (record f { gate = end_write f.gate; writing = f.writing - 1 })
  ask : (f : Fence) → Step f (record f { gate = freeze_start f.gate; waiting = f.waiting + 1 })
  drain :
      (f : Fence) (g : Gate)
      → 0 < f.waiting
      → freeze_check f.gate ≡ go g
      → Step f (record f { gate = g; waiting = f.waiting - 1; drained = f.drained || g.frozen })
  give_up : (f : Fence) → 0 < f.waiting → Step f (record f { waiting = f.waiting - 1 })
  refuse : (f : Fence) → Step f f
  block : (f : Fence) (b : Bool) → Step f (record f { gate = set_block_reads b f.gate })
  release : (f : Fence) → Step f (record f { gate = set_gate false false f.gate; drained = false })

pub data Reach (f : Fence) : Fence → Type 0 where
  here : Reach f f
  next : {g h : Fence} → Reach f g → Step g h → Reach f h

pub record IsFenced (f : Fence) : Type 0 where
  pub counted : f.gate.inflight ≡ f.writing
  pub closed : f.drained ≡ true → f.gate.frozen ≡ true
  pub quiet : f.drained ≡ true → f.writing ≡ 0

Step-IsFenced : {f g : Fence} → Step f g → IsFenced f → IsFenced g
unfolding begin_write end_write freeze_start freeze_check set_gate set_block_reads
Step-IsFenced (admit f g p) v = ground arith
Step-IsFenced (finish_write f p) v = ground arith
Step-IsFenced (ask f) v = ground arith
Step-IsFenced (drain f g a p) v = ground arith
Step-IsFenced (give_up f p) v = ground arith
Step-IsFenced (refuse f) v = v
Step-IsFenced (block f b) v = ground arith
Step-IsFenced (release f) v = ground arith

-- Whatever the interleaving of writes, reads, freezes and releases, the count of writes in flight is
-- exact, and from the moment a freeze has returned on a gate that is still frozen until the gate is
-- released, the gate stays frozen and no write is in flight.
pub Reach-IsFenced : {f : Fence} → Reach start f → IsFenced f
Reach-IsFenced here = record { counted = refl; closed = λ h. cc; quiet = λ h. refl }
Reach-IsFenced (next r s) = Step-IsFenced s (Reach-IsFenced r)
