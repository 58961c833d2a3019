-- ===== src/Meta.antt =====
-- crdtstore/meta.go: the metadata record of a key and its encoding.
pub mod Codec
use redgeo.Base.{
  Bytes, be, un_be, ℤ, length, get_or, take, drop, ◌==◌, if◌then◌else◌, ℕ, Bool, ◌||◌, Option, none,
  some, ◌∷◌, ◌++◌, u64, i64,
}

-- core.TypeID and strFlavor are bytes.
pub record Meta : Type 0 where
  pub type_id : ℕ
  pub flavor : ℕ
  pub etime_ms : ℤ
  pub epoch : ℕ

abbrev pub flavor_none : ℕ
flavor_none = 0

abbrev pub flavor_string : ℕ
flavor_string = 1

abbrev pub flavor_counter : ℕ
flavor_counter = 2

abbrev pub flavor_counter_float : ℕ
flavor_counter_float = 3

abbrev pub flavor_hll : ℕ
flavor_hll = 4

abbrev pub flavor_bitmap : ℕ
flavor_bitmap = 5

abbrev pub flavor_hll_dense : ℕ
flavor_hll_dense = 6

unfoldable pub is_hll : ℕ → Bool
is_hll f = f == flavor_hll || f == flavor_hll_dense

unfoldable pub is_counter : ℕ → Bool
is_counter f = f == flavor_counter || f == flavor_counter_float

-- encodeMeta: 14 bytes
unfoldable pub encode_meta : Meta → Bytes
encode_meta m = m.type_id ∷ m.flavor ∷ be 8 (u64 m.etime_ms) ++ be 4 m.epoch

-- decodeMeta
unfoldable pub decode_meta : Bytes → Option Meta
decode_meta b =
    if length b == 14
    then some (record {
      type_id = get_or b 0 0;
      flavor = get_or b 1 0;
      etime_ms = i64 (un_be 0 (take 8 (drop 2 b)));
      epoch = un_be 0 (drop 10 b);
    })
    else none
