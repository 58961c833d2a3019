-- ===== src/Meta/Codec.antt =====
-- The 14-byte encoding of a key's metadata.
use redgeo.Base.{
  Bytes, be, length-be, un_be-be, length, length-append, take-append, drop-append, ◌<◌, ◌≡◌, ◌≢◌,
  ◌↔◌, none, some, ◌++◌, arith, u32_mod, u64, InI64, u64-lt, i64-u64,
}
use redgeo.Meta.{Meta, encode_meta, decode_meta}

-- The ranges of the source's types.
pub record InRange (m : Meta) : Type 0 where
  pub etime : InI64 m.etime_ms
  pub epoch : m.epoch < u32_mod

length-tail : (m : Meta) → length (be 8 (u64 m.etime_ms) ++ be 4 m.epoch) ≡ 12
length-tail m = omega (
  arith,
  length-append (be 8 (u64 m.etime_ms)) (be 4 m.epoch),
  length-be 8 (u64 m.etime_ms),
  length-be 4 m.epoch,
)

-- decodeMeta reads back what encodeMeta wrote: type, flavor, expiry (negative ones included) and
-- epoch.
pub decode_meta-encode_meta : (m : Meta) → InRange m → decode_meta (encode_meta m) ≡ some m
unfolding encode_meta decode_meta
decode_meta-encode_meta m h =
    let q : length (be 8 (u64 m.etime_ms)) ≡ 8 = length-be 8 (u64 m.etime_ms) in
    rw (
      length-tail m,
      take-append 8 (be 8 (u64 m.etime_ms)) (be 4 m.epoch) q,
      drop-append 8 (be 8 (u64 m.etime_ms)) (be 4 m.epoch) q,
      un_be-be 8 (u64 m.etime_ms) (u64-lt m.etime_ms),
      un_be-be 4 m.epoch h.epoch,
      i64-u64 m.etime_ms h.etime,
    )

-- decodeMeta accepts the byte strings of length 14 and no others.
pub decode_meta_accepts : (b : Bytes) → (decode_meta b ≢ none) ↔ (length b ≡ 14)
unfolding decode_meta
decode_meta_accepts b = (λ h. ground arith, λ h e. ground arith)
