-- ===== src/Engine/Gate/Broadcast.antt =====
-- Broadcasts carry the generation that sent them.
use redgeo.Base.{
  Bytes, bytes_eq_iff, be, length-be, un_be-be, length, length-append, take-append, drop-append,
  ltb, ◌==◌, if◌then◌else◌, ℕ, ◌%◌, ◌≤◌, ◌<◌, ◌≡◌, refl, false, ◌&&◌, some, [], ◌∷◌, ◌++◌, arith,
  u32_mod,
}
use native.Mathlib.Nat.{mod-eq_of_lt}
use redgeo.Engine.Gate.{View, gen_magic, wrap_gen, unwrap_gen, pump, broadcast, inbox_size, deliver}

long_enough :
    (gen : ℕ) (payload : Bytes)
    → ltb (length (gen_magic ++ (be 4 (gen % u32_mod) ++ payload))) 8 ≡ false
long_enough gen payload =
    let p : length (be 4 (gen % u32_mod)) ≡ 4 = length-be 4 (gen % u32_mod) in
    let q = length-append (be 4 (gen % u32_mod)) payload in
    let r : 8 ≤ length (gen_magic ++ (be 4 (gen % u32_mod) ++ payload)) = omega (arith, q) in
    ground arith

-- unwrapGen reads back the generation, modulo 2^32, and the payload that wrapGen wrote.
pub unwrap_gen-wrap_gen :
    (gen : ℕ) (payload : Bytes) → unwrap_gen (wrap_gen gen payload) ≡ some (gen % u32_mod, payload)
unfolding wrap_gen unwrap_gen
unwrap_gen-wrap_gen gen payload =
    let p : length (be 4 (gen % u32_mod)) ≡ 4 = length-be 4 (gen % u32_mod) in
    rw (
      long_enough gen payload,
      (bytes_eq_iff gen_magic gen_magic).1 refl,
      take-append 4 (be 4 (gen % u32_mod)) payload p,
      drop-append 4 (be 4 (gen % u32_mod)) payload p,
      un_be-be 4 (gen % u32_mod) (omega arith),
    )

-- Of two generations below 2^32, a broadcast of one reaches a view of the other exactly when they
-- are the same: then it is put at the end of the inbox, unless that is full, and otherwise the
-- view is left as it was.
pub pump-broadcast :
    (payload : Bytes) (v w : View)
    → v.gen < u32_mod
    → pump (broadcast payload v).1 (some w)
      ≡ some (
          if v.gen == w.gen && ltb (length w.inbox) inbox_size
          then record w { inbox = w.inbox ++ payload ∷ [] }
          else w)
unfolding pump broadcast
pump-broadcast payload v w h =
    rw (unwrap_gen-wrap_gen v.gen payload, mod-eq_of_lt h, deliver) (ground arith)
