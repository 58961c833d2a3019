-- ===== src/Hlc/Codec.antt =====
-- The 12-byte encoding of a stamp.
use redgeo.Base.{
  Bytes, compare_bytes, be, length-be, un_be-be, compare_bytes-be, compare_bytes-append_same_length,
  ◌≤ℤ◌, ◌<ℤ◌, pos, length, take, drop, length-append, take-append, drop-append, then_by, ◌<◌,
  compare, ◌≡◌, sym, ◌∙◌, ◌≢◌, ◌↔◌, none, some, arith, u32_mod, u64, InI64, u64-lt, i64-u64,
}
use redgeo.Hlc.{Stamp, encode, decode, compare_stamp}
use Prim.Native.Nat.Ordering.{lt, gt}

-- The ranges of the source's types.
pub record InRange (a : Stamp) : Type 0 where
  pub wall : InI64 a.wall_ms
  pub counter : a.logical < u32_mod

pub length-encode : (a : Stamp) → length (encode a) ≡ 12
unfolding encode
length-encode a = omega (
  arith,
  length-append (be 8 (u64 a.wall_ms)) (be 4 a.logical),
  length-be 8 (u64 a.wall_ms),
  length-be 4 a.logical,
)

take-encode : (a : Stamp) → take 8 (encode a) ≡ be 8 (u64 a.wall_ms)
unfolding encode
take-encode a = take-append 8 (be 8 (u64 a.wall_ms)) (be 4 a.logical) (length-be 8 (u64 a.wall_ms))

drop-encode : (a : Stamp) → drop 8 (encode a) ≡ be 4 a.logical
unfolding encode
drop-encode a = drop-append 8 (be 8 (u64 a.wall_ms)) (be 4 a.logical) (length-be 8 (u64 a.wall_ms))

-- Decode reads back every stamp that Encode wrote.
pub decode-encode : (a : Stamp) → InRange a → decode (encode a) ≡ some a
unfolding decode
decode-encode a h = rw (
  length-encode a,
  take-encode a,
  drop-encode a,
  un_be-be 8 (u64 a.wall_ms) (u64-lt a.wall_ms),
  un_be-be 4 a.logical h.counter,
  i64-u64 a.wall_ms h.wall,
)

-- Decode accepts the byte strings of length 12 and no others.
pub decode_accepts : (b : Bytes) → (decode b ≢ none) ↔ (length b ≡ 12)
unfolding decode
decode_accepts b = (λ h. ground arith, λ h e. ground arith)

compare_bytes-encode_parts :
    (a b : Stamp)
    → InRange a
    → InRange b
    → compare_bytes (encode a) (encode b)
      ≡ then_by (compare (u64 a.wall_ms) (u64 b.wall_ms)) (compare a.logical b.logical)
unfolding encode
compare_bytes-encode_parts a b h k = rw (
  compare_bytes-append_same_length (be 8 (u64 a.wall_ms)) (be 8 (u64 b.wall_ms)) (be 4 a.logical)
      (be 4 b.logical) (length-be 8 (u64 a.wall_ms) ∙ sym (length-be 8 (u64 b.wall_ms))),
  compare_bytes-be 8 (u64 a.wall_ms) (u64 b.wall_ms) (u64-lt a.wall_ms) (u64-lt b.wall_ms),
  compare_bytes-be 4 a.logical b.logical h.counter k.counter,
)

-- Of stamps in range whose wall clocks are not negative, the encodings compare, byte by byte, as
-- the stamps do.
pub compare_bytes-encode :
    (a b : Stamp)
    → InRange a
    → InRange b
    → pos 0 ≤ℤ a.wall_ms
    → pos 0 ≤ℤ b.wall_ms
    → compare_bytes (encode a) (encode b) ≡ compare_stamp a b
unfolding compare_stamp
compare_bytes-encode a b h k p q = rw (compare_bytes-encode_parts a b h k) (ground arith)

-- A stamp in range with a negative wall clock is before one whose wall clock is not negative, and
-- its encoding is after.
pub compare_bytes-encode_negative :
    (a b : Stamp)
    → InRange a
    → InRange b
    → a.wall_ms <ℤ pos 0
    → pos 0 ≤ℤ b.wall_ms
    → (compare_stamp a b ≡ lt) × (compare_bytes (encode a) (encode b) ≡ gt)
unfolding compare_stamp
compare_bytes-encode_negative a b h k p q =
    (ground arith, rw (compare_bytes-encode_parts a b h k) (ground arith))
