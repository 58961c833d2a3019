-- ===== src/Counters.antt =====
-- crdtstore/counter.go: a counter as one stored component for each replica. An operation holds the
-- lock of its key, and so is one step. Counters of int64 and of float64 are written out twice in the
-- source; here they are one over their arithmetic, of which that of float64 is a parameter.
pub mod Total
use redgeo.Base.{
  Bytes, bytes_eq, ℤ, pos, length, Map, lookup, insert, ltb, if◌then◌else◌, ℕ, ◌+◌, ◌%◌, Bool, true,
  false, Option, none, some, List, [], ◌∷◌, u64_mod, u64, i64, bytes_key,
}
use redgeo.Exec.{Exec, pure, ◌>>=◌, ◌>>◌}
use redgeo.Keyspace.{Keyspace, type_string, trim_prefix}
use redgeo.Keys.{counter_base, counter_slot, decimal}
use redgeo.Keys.Base32.{dec_seg}
use redgeo.Meta.{Meta, flavor_counter, flavor_counter_float}
use redgeo.Parser.Atoi.{atoi}
use redgeo.Txn.{Entry}

-- The numbers of a counter: strconv's parsing and formatting, `+=`, and the zero of an absent entry.
pub record Number (N : Type 0) : Type 0 where
  pub parse : Bytes → Option N
  pub format : N → Bytes
  pub plus : N → N → N
  pub nought : N

unfoldable pub add64 : ℤ → ℤ → ℤ
add64 a b = i64 ((u64 a + u64 b) % u64_mod)

unfoldable pub parse_int : Bytes → Option ℤ
unfolding atoi
parse_int b = let r = atoi b in if r.1 then some r.0 else none

unfoldable abbrev pub int64 : Number ℤ
unfolding add64 parse_int decimal
int64 = record { parse = parse_int; format = decimal; plus = add64; nought = pos 0 }

module _ {N : Type 0} (num : Number N) where
  -- The loop of counterComponentsInt; what does not decode or parse is skipped.
  unfoldable pub components_from : Bytes → Map Bytes N → List Entry → Map Bytes N
  unfolding trim_prefix
  components_from base out [] = out
  components_from base out (e ∷ entries) = elim (dec_seg (trim_prefix e.key base)) [
    | none ↦ components_from base out entries
    | some replica ↦ elim (num.parse e.val) [
      | none ↦ components_from base out entries
      | some n ↦ components_from base (insert replica n out) entries
    ]
  ]

  -- for _, n := range comps { sum += n }
  unfoldable pub sum_from : N → Map Bytes N → N
  sum_from sum [] = sum
  sum_from sum ((r, n) ∷ comps) = sum_from (num.plus sum n) comps

  -- The same but for one replica.
  unfoldable pub others_from : Bytes → N → Map Bytes N → N
  others_from replica sum [] = sum
  others_from replica sum ((r, n) ∷ comps) =
      others_from replica (if bytes_eq r replica then sum else num.plus sum n) comps

  -- comps[replica], zero where there is none
  unfoldable pub component_of : Bytes → Map Bytes N → N
  component_of replica comps = elim (lookup replica comps) [ none ↦ num.nought | some n ↦ n ]

module _ {S : Type 0} (ks : Keyspace S) (new_key : Bytes → Bytes) (replica : Bytes) (db : ℤ) where
  module _ {N : Type 0} (num : Number N) where
    unfoldable pub components : Bytes → Exec S (Map Bytes N)
    unfolding components_from
    components key = do
      entries ← ks.query (counter_base db key) false
      pure (components_from num (counter_base db key) [] entries)

    unfoldable pub counter_sum : Bytes → Exec S N
    unfolding components sum_from
    counter_sum key = do comps ← components key; pure (sum_from num num.nought comps)

    unfoldable pub increment : ℕ → Bytes → N → ℤ → Exec S N
    unfolding components others_from component_of
    increment flavor key delta etime_ms = do
      comps ← components key
      ks.put (counter_slot new_key db key replica)
          (num.format (num.plus (component_of num replica comps) delta))
      ks.write_meta key
          (record { type_id = type_string; flavor = flavor; etime_ms = etime_ms; epoch = 0 })
      pure (
          num.plus (others_from num replica num.nought comps)
            (num.plus (component_of num replica comps) delta))

  unfoldable pub counter_sum_int : Bytes → Exec S ℤ
  unfolding counter_sum int64
  counter_sum_int key = counter_sum int64 key

  unfoldable pub incr_int : Bytes → ℤ → ℤ → Exec S ℤ
  unfolding increment int64
  incr_int key delta etime_ms = increment int64 flavor_counter key delta etime_ms

  unfoldable pub incr_float : {F : Type 0} → Number F → Bytes → F → ℤ → Exec S F
  unfolding increment
  incr_float float64 key delta etime_ms = increment float64 flavor_counter_float key delta etime_ms

  -- counterExists
  unfoldable pub counter_exists : Bytes → Exec S Bool
  counter_exists key = do
    entries ← ks.query (counter_base db key) true
    pure (ltb 0 (length entries))

  unfoldable pub delete_components : Bytes → List Entry → Exec S (Unit {0})
  unfolding trim_prefix
  delete_components key [] = pure tt
  delete_components key (e ∷ entries) = elim (dec_seg (trim_prefix e.key (counter_base db key))) [
    | none ↦ delete_components key entries
    | some r ↦ do ks.del (counter_slot new_key db key r); delete_components key entries
  ]

  -- deleteCounter
  unfoldable pub delete_counter : Bytes → Exec S (Unit {0})
  unfolding delete_components
  delete_counter key = do
    entries ← ks.query (counter_base db key) true
    delete_components key entries
    ks.delete_meta key
