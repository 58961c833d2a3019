-- ===== src/Counters/Total.antt =====
-- crdtstore/counter.go: incrInt against the sum of all components, in the arithmetic of an int64.
use redgeo.Base.{
  Bytes, bytes_eq, bytes_eq_iff, ℤ, pos, Map, lookup, insert, Distinct, insert-Distinct,
  if◌then◌else◌, Bool-cases, Option-cases, ℕ, ◌+◌, ◌%◌, ◌≡◌, refl, sym, ap, ◌∙◌, inl, inr, false,
  Option, none, some, List, [], ◌∷◌, arith, u64_mod, u64, i64, bytes_key,
}
use redgeo.Exec.{ok}
use redgeo.Keyspace.{Keyspace, Works, is_meta, type_string}
use redgeo.Keys.{counter_base, counter_slot, decimal}
use redgeo.Keys.Paths.{IsName}
use redgeo.Keys.Base32.{dec_seg}
use redgeo.Keyspace.{trim_prefix}
use redgeo.Meta.{Meta, flavor_counter}
use redgeo.Txn.{Entry}
use redgeo.Counters.{
  Number, add64, int64, components_from, sum_from, others_from, component_of, components,
  counter_sum, increment, counter_sum_int, incr_int,
}

-- Sums modulo 2 ^ 64.
weight : Map Bytes ℤ → ℕ
weight [] = 0
weight ((r, n) ∷ comps) = u64 n + weight comps

weight_others : Bytes → Map Bytes ℤ → ℕ
weight_others replica [] = 0
weight_others replica ((r, n) ∷ comps) =
    (if bytes_eq r replica then 0 else u64 n) + weight_others replica comps

u64-i64_mod : (w : ℕ) → u64 (i64 (w % u64_mod)) ≡ w % u64_mod
u64-i64_mod w = ground arith

sum_from-weight :
    (sum : ℕ) (comps : Map Bytes ℤ)
    → sum_from int64 (i64 (sum % u64_mod)) comps ≡ i64 ((sum + weight comps) % u64_mod)
unfolding sum_from int64 add64 weight
sum_from-weight sum [] = ap (λ w. i64 (w % u64_mod)) (omega arith)
sum_from-weight sum ((r, n) ∷ comps) =
    ap (λ w. sum_from int64 (i64 w) comps) (rw (u64-i64_mod sum) (omega arith))
    ∙ (sum_from-weight (sum + u64 n) comps ∙ ap (λ w. i64 (w % u64_mod)) (omega arith))

others_from-weight :
    (replica : Bytes) (sum : ℕ) (comps : Map Bytes ℤ)
    → others_from int64 replica (i64 (sum % u64_mod)) comps
      ≡ i64 ((sum + weight_others replica comps) % u64_mod)
unfolding others_from int64 add64 weight_others
others_from-weight replica sum [] = ap (λ w. i64 (w % u64_mod)) (omega arith)
others_from-weight replica sum ((r, n) ∷ comps) = elim (Bool-cases (bytes_eq r replica)) [
  | inl mine ↦
      rw mine (others_from-weight replica sum comps ∙ ap (λ w. i64 (w % u64_mod)) (omega arith))
  | inr other ↦ rw other (
      ap (λ w. others_from int64 replica (i64 w) comps) (rw (u64-i64_mod sum) (omega arith))
      ∙ (others_from-weight replica (sum + u64 n) comps
          ∙ ap (λ w. i64 (w % u64_mod)) (omega arith)))
]

-- A component that is not there weighs nothing.
weight_others-absent :
    (replica : Bytes) (comps : Map Bytes ℤ)
    → lookup replica comps ≡ none
    → weight_others replica comps ≡ weight comps
unfolding weight_others weight lookup
weight_others-absent replica [] absent = refl
weight_others-absent replica ((r, n) ∷ comps) absent = elim (Bool-cases (bytes_eq r replica)) [
  | inl mine ↦ absurd (ground (arith, mine, absent))
  | inr other ↦
      rw other
        (ap (◌+◌ (u64 n)) (weight_others-absent replica comps (ground (arith, other, absent))))
]

component_of-cons :
    (replica r : Bytes) (n : ℤ) (comps : Map Bytes ℤ)
    → component_of int64 replica ((r, n) ∷ comps)
      ≡ (if bytes_eq r replica then n else component_of int64 replica comps)
unfolding component_of lookup
component_of-cons replica r n comps = elim (Bool-cases (bytes_eq r replica)) [
  | inl mine ↦ rw (mine, component_of) refl
  | inr other ↦ rw (other, component_of) refl
]

weight-split :
    (replica : Bytes) (comps : Map Bytes ℤ)
    → Distinct comps
    → weight_others replica comps + u64 (component_of int64 replica comps) ≡ weight comps
unfolding weight_others weight component_of lookup int64
weight-split replica [] d = refl
weight-split replica ((r, n) ∷ comps) d =
    rw (component_of-cons replica r n comps) (elim (Bool-cases (bytes_eq r replica)) [
      | inl mine ↦
          let absent =
            weight_others-absent replica comps (rw (sym ((bytes_eq_iff r replica).0 mine)) d.0) in
          rw mine (omega (arith, absent))
      | inr other ↦ rw other (omega (arith, weight-split replica comps d.1))
    ])

components_from-Distinct :
    {N : Type 0} (num : Number N) (base : Bytes) (out : Map Bytes N) (entries : List Entry)
    → Distinct out
    → Distinct (components_from num base out entries)
unfolding components_from
components_from-Distinct num base out [] d = d
components_from-Distinct num base out (e ∷ entries) d =
    elim (Option-cases (dec_seg (trim_prefix e.key base))) [
      | inl bad ↦ rw (bad, Distinct) (components_from-Distinct num base out entries d)
      | inr (r, good) ↦
          rw (good, Distinct)
            (elim (Option-cases (num.parse e.val)) [
              | inl odd ↦ rw (odd, Distinct) (components_from-Distinct num base out entries d)
              | inr (n, read) ↦
                  rw (read, Distinct)
                    (components_from-Distinct num base (insert r n out) entries
                      (insert-Distinct r n out d))
            ])
    ]

-- What is added to one component is added to the sum.
others-plus :
    (replica : Bytes) (comps : Map Bytes ℤ) (delta : ℤ)
    → Distinct comps
    → add64
        (others_from int64 replica (pos 0) comps)
        (add64 (component_of int64 replica comps) delta)
      ≡ add64 (sum_from int64 (pos 0) comps) delta
unfolding add64
others-plus replica comps delta d =
    let mine = u64 (component_of int64 replica comps) in
    rw (others_from-weight replica 0 comps, sum_from-weight 0 comps)
      (rw
        (
          u64-i64_mod (0 + weight_others replica comps),
          u64-i64_mod (mine + u64 delta),
          u64-i64_mod (0 + weight comps),
        )
        (ap i64 (omega (arith, weight-split replica comps d))))

-- the metadata of a counter
abbrev pub counter_meta : ℤ → Meta
counter_meta etime_ms = record {
  type_id = type_string;
  flavor = flavor_counter;
  etime_ms = etime_ms;
  epoch = 0;
}

module _ {S : Type 0} {ks : Keyspace S} {view : S → Bytes → Option Bytes}
    {kind : S → Bytes → Option ℕ} (works : Works ks view kind) (new_key : Bytes → Bytes)
    (replica : Bytes) (db : ℤ) where
  -- the components that a replica reads
  abbrev pub stored_components : S → Bytes → Map Bytes ℤ
  stored_components s key =
      components_from int64 (counter_base db key) [] (works.listed (counter_base db key) false s)

  -- INCRBY of any int64 answers what the sum of all replicas' components was, plus the delta, in int64
  -- arithmetic; the replica's own component is then stored with the delta added, and of the stored
  -- data that are no metadata nothing else has changed. The datastore works, and the key is not empty.
  pub incr_int_total :
      (key : Bytes) (delta etime_ms : ℤ) (s : S)
      → IsName key
      → (sum : ℤ) × (counter_sum_int ks new_key replica db key s ≡ (ok sum, s))
        × ((incr_int ks new_key replica db key delta etime_ms s).0 ≡ ok (add64 sum delta))
        × ((j : Bytes)
            → is_meta j ≡ false
            → view (incr_int ks new_key replica db key delta etime_ms s).1 j ≡ (
                if bytes_eq (counter_slot new_key db key replica) j
                then some
                    (decimal (add64 (component_of int64 replica (stored_components s key)) delta))
                else view s j))
  unfolding incr_int counter_sum_int counter_sum increment components
  incr_int_total key delta etime_ms s h =
      let base = counter_base db key in
      let comps = stored_components s key in
      let slot = counter_slot new_key db key replica in
      let mine = add64 (component_of int64 replica comps) delta in
      let s' = (ks.put slot (decimal mine) s).1 in
      let m : Meta = record {
        type_id = type_string;
        flavor = flavor_counter;
        etime_ms = etime_ms;
        epoch = 0;
      } in
      let apart = components_from-Distinct int64 base [] (works.listed base false s) tt in
      (
        sum_from int64 (pos 0) comps,
        rw (works.query_ok base false s) refl,
        rw
            (
              works.query_ok base false s,
              works.put_ok slot (decimal mine) s,
              works.write_meta_ok key m s',
            )
            (ap ok (others-plus replica comps delta apart)),
        λ j no_meta.
            rw
              (
                works.query_ok base false s,
                works.put_ok slot (decimal mine) s,
                works.write_meta_ok key m s',
              )
              (works.write_meta_view key m s' j h no_meta ∙ works.put_view slot (decimal mine) s j),
      )

  pub incr_int_state :
      (key : Bytes) (delta etime_ms : ℤ) (s : S)
      → (incr_int ks new_key replica db key delta etime_ms s).1
        ≡ (ks.write_meta key
            (counter_meta etime_ms)
            (ks.put
              (counter_slot new_key db key replica)
              (decimal (add64 (component_of int64 replica (stored_components s key)) delta))
              s).1).1
  unfolding incr_int increment components
  incr_int_state key delta etime_ms s =
      let slot = counter_slot new_key db key replica in
      let mine = add64 (component_of int64 replica (stored_components s key)) delta in
      rw
        (
          works.query_ok (counter_base db key) false s,
          works.put_ok slot (decimal mine) s,
          works.write_meta_ok key (counter_meta etime_ms) (ks.put slot (decimal mine) s).1,
        )
        refl
