-- ===== src/Slot/Codec.antt =====
-- The envelope of a slot.
use redgeo.Base.{
  Bytes, length, length-append, length-take, take-append, get_or-append, drop-append_cons, ltb, ◌≤◌,
  ◌<◌, ◌≡◌, ◌↔◌, false, none, some, ◌∷◌, ◌++◌, arith,
}
use redgeo.Hlc
use redgeo.Hlc.Codec.{InRange, length-encode, decode-encode}
use redgeo.Slot.{Slot, encode_slot, decode_slot}

long_enough : (s : Slot) → ltb (length (Hlc.encode s.stamp ++ s.tag ∷ s.value)) 13 ≡ false
long_enough s =
    let p : length (Hlc.encode s.stamp) ≡ 12 = length-encode s.stamp in
    let q = length-append (Hlc.encode s.stamp) (s.tag ∷ s.value) in
    let r : 13 ≤ length (Hlc.encode s.stamp ++ s.tag ∷ s.value) = omega (arith, q) in ground (arith)

-- decodeSlot reads back every slot that encodeSlot wrote, whatever its tag and its value.
pub decode_slot-encode_slot : (s : Slot) → InRange s.stamp → decode_slot (encode_slot s) ≡ some s
unfolding decode_slot encode_slot
decode_slot-encode_slot s h =
    let p : length (Hlc.encode s.stamp) ≡ 12 = length-encode s.stamp in
    let long : ltb (length (Hlc.encode s.stamp ++ s.tag ∷ s.value)) 13 ≡ false = long_enough s in
    rw (
      long,
      take-append 12 (Hlc.encode s.stamp) (s.tag ∷ s.value) p,
      decode-encode s.stamp h,
      get_or-append 12 (Hlc.encode s.stamp) s.tag s.value 0 p,
      drop-append_cons 12 (Hlc.encode s.stamp) s.tag s.value p,
    )

-- decodeSlot refuses the byte strings shorter than an empty slot, and no others.
pub decode_slot_refuses : (b : Bytes) → (decode_slot b ≡ none) ↔ (length b < 13)
unfolding decode_slot Hlc.decode
decode_slot_refuses b = ground (arith, length-take 12 b)
