-- ===== src/Engine/Gate.antt =====
-- engine/gate.go: the fence that holds writes and reads of a partition back during a compaction,
-- and the tag that keeps the broadcasts of two generations apart. The mutex makes each section
-- between two waits one step; a step of a goroutine is taken when the gate lets it, and a wait
-- also ends by a deadline or a cancelled context.
pub mod Fence
pub mod Broadcast
use redgeo.Base.{
  Bytes, bytes_eq, be, un_be, length, take, drop, ltb, ◌==◌, if◌then◌else◌, ℕ, ◌+◌, ◌-◌, ◌%◌, Bool,
  true, false, Option, none, some, List, [], ◌∷◌, ◌++◌, u32_mod,
}

pub record Gate : Type 0 where
  pub frozen : Bool
  pub block_reads : Bool
  pub inflight : ℕ

abbrev pub open_gate : Gate
open_gate = record { frozen = false; block_reads = false; inflight = 0 }

-- What a goroutine finds when it looks at the gate: it goes on, or it waits for a change.
pub data Look : Type 0 where
  go : Gate → Look
  waits : Look

-- beginWrite, the check of waitWhile and what follows it
unfoldable pub begin_write : Gate → Look
begin_write g = if g.frozen then waits else go (record g { inflight = g.inflight + 1 })

-- the function that beginWrite returns
unfoldable pub end_write : Gate → Gate
end_write g = record g { inflight = g.inflight - 1 }

-- waitReadable
unfoldable pub wait_readable : Gate → Look
wait_readable g = if g.block_reads then waits else go g

-- freeze: the write of the flag, and then the check of waitWhile
unfoldable pub freeze_start : Gate → Gate
freeze_start g = record g { frozen = true }

unfoldable pub freeze_check : Gate → Look
freeze_check g = if ltb 0 g.inflight then waits else go g

unfoldable pub set_gate : Bool → Bool → Gate → Gate
set_gate frozen block_reads g = record g { frozen = frozen; block_reads = block_reads }

unfoldable pub set_block_reads : Bool → Gate → Gate
set_block_reads b g = record g { block_reads = b }

-- genMagic, wrapGen, unwrapGen
abbrev pub gen_magic : Bytes
gen_magic = b'r' ∷ b'g' ∷ b'e' ∷ b'n' ∷ []

unfoldable pub wrap_gen : ℕ → Bytes → Bytes
wrap_gen gen payload = gen_magic ++ (be 4 (gen % u32_mod) ++ payload)

unfoldable pub unwrap_gen : Bytes → Option (ℕ × Bytes)
unwrap_gen b =
    if ltb (length b) 8
    then none
    else if bytes_eq (take 4 b) gen_magic
    then some (un_be 0 (take 4 (drop 4 b)), drop 8 b)
    else none

-- A view is one generation's end of the broadcaster; its inbox holds 1024 payloads.
pub record View : Type 0 where
  pub gen : ℕ
  pub inbox : List Bytes
  pub last : Bytes

abbrev pub inbox_size : ℕ
inbox_size = 1024

-- newView
abbrev pub new_view : ℕ → View
new_view gen = record { gen = gen; inbox = []; last = [] }

deliver : Option (ℕ × Bytes) → View → View
deliver none v = v
deliver (some (gen, payload)) v =
    if gen == v.gen
    then if ltb (length v.inbox) inbox_size then record v { inbox = v.inbox ++ payload ∷ [] } else v
    else v

-- pump, on one message of the inner broadcaster: only the current view's own generation passes, and
-- a full inbox drops it
unfoldable pub pump : Bytes → Option View → Option View
unfolding deliver
pump b none = none
pump b (some v) = some (deliver (unwrap_gen b) v)

-- Broadcast: the view remembers what it sent, and the inner broadcaster gets the same bytes
unfoldable pub broadcast : Bytes → View → View × Bytes
broadcast payload v = let wrapped = wrap_gen v.gen payload in (record v { last = wrapped }, wrapped)

-- resend: nothing, before the first broadcast
unfoldable pub resend : View → Option Bytes
resend v = if length v.last == 0 then none else some v.last
