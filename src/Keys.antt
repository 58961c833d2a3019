-- ===== src/Keys.antt =====
-- crdtstore/keys.go: the paths under which the values of a logical key are stored. ds.NewKey, which
-- cleans a path (go-datastore), is the parameter `new_key`.
pub mod Base32
pub mod Paths
pub mod Members
use redgeo.Base.{
  Bytes, ascii, ℤ, pos, negsuc, ltb, if◌then◌else◌, ℕ, zero, suc, ◌+◌, ◌-◌, ◌*◌, ◌/◌, ◌%◌, List, [],
  ◌∷◌, ◌++◌, u32_mod, u64,
}
use Prim.Native.Nat.{bit_xor}
use redgeo.Keys.Base32.{enc_seg}

abbrev pub num_buckets : ℕ
num_buckets = 256

-- the digits of %d, at most `fuel` of them: 20 are enough for an int64
unfoldable pub decimal_from : ℕ → ℕ → Bytes
decimal_from zero n = []
decimal_from (suc fuel) n =
    let rest = decimal_from fuel (n / 10) in
    if ltb n 10 then (n + 48) ∷ [] else rest ++ (n % 10 + 48) ∷ []

unfoldable pub decimal : ℤ → Bytes
unfolding decimal_from
decimal (pos n) = decimal_from 20 n
decimal (negsuc n) = b'-' ∷ decimal_from 20 (suc n)

unfoldable pub hex_digit : ℕ → ℕ
hex_digit d = if ltb d 10 then d + 48 else d + 87

-- %02x, %08x and %016x of a number that fits
unfoldable pub hex : ℕ → ℕ → Bytes
unfolding hex_digit
hex zero v = []
hex (suc w) v = hex w (v / 16) ++ hex_digit (v % 16) ∷ []

-- hash/fnv's New32a, from the state `h`
unfoldable pub fnv : ℕ → Bytes → ℕ
fnv h [] = h
fnv h (b ∷ bs) = fnv (bit_xor h b * 16777619 % u32_mod) bs

-- byte(db >> (8 * i)) for i from 0, the low bytes of the int64 first
unfoldable pub low_bytes : ℕ → ℕ → Bytes
low_bytes zero v = []
low_bytes (suc w) v = v % 256 ∷ low_bytes w (v / 256)

unfoldable pub bucket : ℤ → Bytes → ℕ
unfolding fnv low_bytes
bucket db key = fnv 2166136261 (low_bytes 8 (u64 db) ++ key) % num_buckets

unfoldable pub part : ℤ → Bytes → Bytes
unfolding bucket hex
part db key = b'/' ∷ hex 2 (bucket db key)

-- "%s/d/%d/%s/" and the segment of the type
unfoldable pub data_base : ℤ → Bytes → Bytes → Bytes
unfolding part decimal
data_base db key kind =
    part db key ++ ascii "/d/" ++ decimal db ++ ascii "/" ++ enc_seg key ++ ascii "/" ++ kind

unfoldable pub meta_base : ℤ → Bytes → Bytes
unfolding part decimal
meta_base db key = part db key ++ ascii "/m/" ++ decimal db ++ ascii "/" ++ enc_seg key ++ ascii "/"

unfoldable pub str_base : ℤ → Bytes → Bytes
str_base db key = data_base db key (ascii "v/")

unfoldable pub counter_base : ℤ → Bytes → Bytes
counter_base db key = data_base db key (ascii "c/")

unfoldable pub hll_base : ℤ → Bytes → Bytes
hll_base db key = data_base db key (ascii "p/")

unfoldable pub bit_base : ℤ → Bytes → Bytes
bit_base db key = data_base db key (ascii "b/")

unfoldable pub bit_chunk_base : ℤ → Bytes → ℕ → Bytes
unfolding bit_base
bit_chunk_base db key chunk = bit_base db key ++ hex 8 chunk ++ ascii "/"

unfoldable pub stream_base : ℤ → Bytes → Bytes
stream_base db key = data_base db key (ascii "x/")

unfoldable pub stream_last_base : ℤ → Bytes → Bytes
stream_last_base db key = data_base db key (ascii "xl/")

unfoldable pub groups_base : ℤ → Bytes → Bytes
groups_base db key = data_base db key (ascii "xg/")

unfoldable pub group_base : ℤ → Bytes → Bytes → Bytes
unfolding groups_base
group_base db key group = groups_base db key ++ enc_seg group ++ ascii "/"

unfoldable pub hash_base : ℤ → Bytes → Bytes
hash_base db key = data_base db key (ascii "h/")

unfoldable pub hash_field_base : ℤ → Bytes → Bytes → Bytes
unfolding hash_base
hash_field_base db key field = hash_base db key ++ enc_seg field ++ ascii "/"

unfoldable pub hash_field_counter_base : ℤ → Bytes → Bytes → Bytes
unfolding hash_field_base
hash_field_counter_base db key field = hash_field_base db key field ++ ascii "c/"

unfoldable pub set_base : ℤ → Bytes → Bytes
set_base db key = data_base db key (ascii "e/")

unfoldable pub zset_base : ℤ → Bytes → Bytes
zset_base db key = data_base db key (ascii "z/")

unfoldable pub zset_member_base : ℤ → Bytes → Bytes → Bytes
unfolding zset_base
zset_member_base db key member = zset_base db key ++ enc_seg member ++ ascii "/"

unfoldable pub list_base : ℤ → Bytes → Bytes
list_base db key = data_base db key (ascii "l/")

-- "/%02x/m/%d/" for each bucket from `p`
unfoldable pub prefixes_from : ℤ → ℕ → ℕ → List Bytes
unfolding decimal hex
prefixes_from db zero p = []
prefixes_from db (suc n) p =
    (b'/' ∷ hex 2 p ++ ascii "/m/" ++ decimal db ++ ascii "/") ∷ prefixes_from db n (p + 1)

unfoldable pub db_meta_prefixes : ℤ → List Bytes
unfolding prefixes_from
db_meta_prefixes db = prefixes_from db num_buckets 0

abbrev pub replica_reg_prefix : Bytes
replica_reg_prefix = ascii "/00/r/"

module _ (new_key : Bytes → Bytes) where
  unfoldable pub meta_slot : ℤ → Bytes → Bytes → Bytes
  meta_slot db key replica = new_key (meta_base db key ++ enc_seg replica)

  unfoldable pub str_slot : ℤ → Bytes → Bytes → Bytes
  str_slot db key replica = new_key (str_base db key ++ enc_seg replica)

  unfoldable pub counter_slot : ℤ → Bytes → Bytes → Bytes
  counter_slot db key replica = new_key (counter_base db key ++ enc_seg replica)

  unfoldable pub hll_slot : ℤ → Bytes → Bytes → Bytes
  hll_slot db key replica = new_key (hll_base db key ++ enc_seg replica)

  unfoldable pub bit_slot : ℤ → Bytes → ℕ → Bytes → Bytes
  bit_slot db key chunk replica = new_key (bit_chunk_base db key chunk ++ enc_seg replica)

  unfoldable pub stream_slot : ℤ → Bytes → ℕ → ℕ → Bytes → Bytes
  stream_slot db key ms seq replica =
      new_key
        (stream_base db key ++ hex 16 ms ++ ascii "-" ++ hex 16 seq ++ ascii "/" ++ enc_seg replica)

  unfoldable pub stream_last_slot : ℤ → Bytes → Bytes → Bytes
  stream_last_slot db key replica = new_key (stream_last_base db key ++ enc_seg replica)

  unfoldable pub replica_reg_key : Bytes → Bytes
  replica_reg_key replica = new_key (replica_reg_prefix ++ enc_seg replica)

  unfoldable pub group_meta_slot : ℤ → Bytes → Bytes → Bytes → Bytes
  group_meta_slot db key group replica =
      new_key (group_base db key group ++ ascii "m/" ++ enc_seg replica)

  unfoldable pub group_last_slot : ℤ → Bytes → Bytes → Bytes → Bytes
  group_last_slot db key group replica =
      new_key (group_base db key group ++ ascii "l/" ++ enc_seg replica)

  unfoldable pub group_pel_slot : ℤ → Bytes → Bytes → ℕ → ℕ → Bytes → Bytes
  group_pel_slot db key group ms seq replica = new_key (
      group_base db key group
      ++ ascii "p/"
      ++ hex 16 ms
      ++ ascii "-"
      ++ hex 16 seq
      ++ ascii "/"
      ++ enc_seg replica)

  unfoldable pub group_consumer_slot : ℤ → Bytes → Bytes → Bytes → Bytes → Bytes
  group_consumer_slot db key group consumer replica =
      new_key
        (group_base db key group ++ ascii "c/" ++ enc_seg consumer ++ ascii "/" ++ enc_seg replica)

  unfoldable pub hash_slot : ℤ → Bytes → Bytes → Bytes → Bytes
  hash_slot db key field replica = new_key (hash_field_base db key field ++ enc_seg replica)

  unfoldable pub hash_field_counter_slot : ℤ → Bytes → Bytes → Bytes → Bytes
  hash_field_counter_slot db key field replica =
      new_key (hash_field_counter_base db key field ++ enc_seg replica)

  unfoldable pub set_member : ℤ → Bytes → Bytes → Bytes
  set_member db key member = new_key (set_base db key ++ enc_seg member)

  unfoldable pub zset_slot : ℤ → Bytes → Bytes → Bytes → Bytes
  zset_slot db key member replica = new_key (zset_member_base db key member ++ enc_seg replica)

  unfoldable pub list_elem : ℤ → Bytes → Bytes → Bytes
  list_elem db key pos_key = new_key (list_base db key ++ pos_key)
