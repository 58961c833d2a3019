-- ===== src/Bitops.antt =====
-- crdtstore/bitops.go: bit strings in Redis order, where bit 0 is the most significant bit of byte 0.
pub mod Range
pub mod Position
pub mod Digits
pub mod Operation
use Prim.Native.Nat.{bit_and, bit_or, bit_xor}
use redgeo.Base.{
  Bytes, ℤ, ◌+ℤ◌, ◌-ℤ◌, ltz, lez, pos, negsuc, length, get_or, take, drop, ltb, leb, ◌==◌,
  if◌then◌else◌, ℕ, zero, suc, ◌+◌, ◌-◌, ◌*◌, ◌/◌, ◌%◌, ◌^◌, Bool, true, false, not, ◌&&◌, Option,
  none, some, List, [], ◌∷◌,
}

-- bitRange: the inclusive range, and whether it is not empty. The length `n` is that of a slice.
unfoldable pub from_end : ℤ → ℤ → ℤ
from_end total x = if ltz x (pos 0) then x +ℤ total else x

unfoldable pub at_least_zero : ℤ → ℤ
at_least_zero x = if ltz x (pos 0) then pos 0 else x

unfoldable pub below_total : ℤ → ℤ → ℤ
below_total total x = if lez total x then total -ℤ pos 1 else x

unfoldable pub bit_range : ℕ → ℤ → ℤ → Bool → Bool → Bool → ℤ × ℤ × Bool
unfolding from_end at_least_zero below_total
bit_range n start end has_start has_end in_bits =
    let total = if in_bits then n * 8 else n in
    let s = at_least_zero (from_end (pos total) (if has_start then start else pos 0)) in
    let e = at_least_zero (from_end (pos total) (if has_end then end else pos total -ℤ pos 1)) in
    if total == 0
    then (pos 0, negsuc 0, false)
    else (s, below_total (pos total) e, lez s (below_total (pos total) e))

-- bits.OnesCount8
unfoldable pub ones_count8 : ℕ → ℕ
ones_count8 b =
    b % 2 + b / 2 % 2 + b / 4 % 2 + b / 8 % 2 + b / 16 % 2 + b / 32 % 2 + b / 64 % 2 + b / 128 % 2

-- bitCountRange, in bytes: the slice data[s : e+1]
unfoldable pub sum_ones : Bytes → ℕ
unfolding ones_count8
sum_ones [] = 0
sum_ones (b ∷ bs) = ones_count8 b + sum_ones bs

-- bitCountRange, in bits: the loop from byte `i`, for the `left` bytes up to the last
unfoldable pub count_bits : ℕ → Bytes → ℕ → ℕ → ℕ → ℕ
unfolding ones_count8
count_bits zero d s e i = 0
count_bits (suc left) d s e i =
    let b = get_or d i 0 in
    let b' = if i == s / 8 then bit_and b (255 / 2 ^ (s % 8)) else b in
    let b'' = if i == e / 8 then bit_and b' (255 * 2 ^ (7 - e % 8) % 256) else b' in
    ones_count8 b'' + count_bits left d s e (i + 1)

unfoldable pub bit_count_range : Bytes → ℕ → ℕ → Bool → ℕ
unfolding sum_ones count_bits
bit_count_range d s e in_bits =
    if in_bits
    then count_bits (e / 8 + 1 - s / 8) d s e (s / 8)
    else sum_ones (drop s (take (e + 1) d))

-- whether the bit at `off` is set
unfoldable pub bit_set : Bytes → ℕ → Bool
bit_set d off = not (bit_and (get_or d (off / 8) 0) (128 / 2 ^ (off % 8)) == 0)

abbrev pub same_bit : Bool → Bool → Bool
same_bit true b = b
same_bit false b = not b

-- a byte that cannot contain the wanted bit
abbrev pub skip_byte : Bool → ℕ
skip_byte bit = if bit then 0 else 255

-- The loop of bitPosRange from `off`; `none` is -1. Each round moves on by one bit or by eight, so
-- the number of bits that are left bounds the rounds.
unfoldable pub bit_pos_from : ℕ → Bytes → Bool → ℕ → ℕ → Option ℕ
bit_pos_from zero d bit off eb = none
bit_pos_from (suc fuel) d bit off eb = elim (leb off eb) [
  | false ↦ none
  | true ↦ elim (off % 8 == 0 && leb (off + 7) eb && get_or d (off / 8) 0 == skip_byte bit) [
    | true ↦ bit_pos_from fuel d bit (off + 8) eb
    | false ↦ elim (same_bit (bit_set d off) bit) [
      | true ↦ some off
      | false ↦ bit_pos_from fuel d bit (off + 1) eb
    ]
  ]
]

unfoldable pub bit_pos_range : Bytes → Bool → ℕ → ℕ → Option ℕ
bit_pos_range d bit sb eb = bit_pos_from (eb + 1 - sb) d bit sb eb

pub data Op : Type 0 where
  and or xor complement : Op

unfoldable pub longest : List Bytes → ℕ
longest [] = 0
longest (s ∷ srcs) = let n = longest srcs in if ltb n (length s) then length s else n

unfoldable pub combine : Op → ℕ → ℕ → ℕ
combine and acc b = bit_and acc b
combine or acc b = bit_or acc b
combine xor acc b = bit_xor acc b
combine complement acc b = acc

-- the loop over the operands, after the first one
unfoldable pub accumulate : Op → ℕ → ℕ → List Bytes → ℕ
unfolding combine
accumulate op i acc [] = acc
accumulate op i acc (s ∷ srcs) = accumulate op i (combine op acc (get_or s i 0)) srcs

unfoldable pub out_byte : Op → List Bytes → ℕ → ℕ
unfolding accumulate
out_byte op [] i = 0
out_byte complement (s ∷ srcs) i = 255 - get_or s i 0
out_byte op (s ∷ srcs) i = accumulate op i (get_or s i 0) srcs

unfoldable pub out_bytes : Op → List Bytes → ℕ → ℕ → Bytes
out_bytes op srcs zero i = []
out_bytes op srcs (suc n) i = out_byte op srcs i ∷ out_bytes op srcs n (i + 1)

-- bitop
unfoldable pub bitop : Op → List Bytes → Bytes
bitop op srcs = out_bytes op srcs (longest srcs) 0
