-- ===== src/StrRepo/Incr.antt =====
-- crdtstore/rstring.go: Incr on every kind of key.
use redgeo.Base.{
  Bytes, ℤ, pos, ◌==◌, if◌then◌else◌, Bool-cases, Option-cases, ℕ, ◌≡◌, refl, ap, inl, inr, ◌&&◌,
  Option, none, some, arith,
}
use redgeo.Exec.{Error, Result, ok, err, key_type, value_type}
use redgeo.Keyspace.{Keyspace, Works, type_string}
use redgeo.Keys.Paths.{IsName}
use redgeo.Meta.{Meta, is_counter, flavor_counter}
use redgeo.Counters.{Number, add64, counter_sum_int, incr_int}
use redgeo.Counters.Total.{incr_int_total}
use redgeo.StrRepo.{
  Registers, Sketches, flavor_of, etime_or, incr, counter_flavor, counter_typed, keep_etime,
}

-- Why a key, by its type if it is live and its metadata, cannot be counted.
unfoldable pub uncountable : Option ℕ → Option Meta → Option Error
unfolding flavor_of
uncountable none m = none
uncountable (some t) m =
    if t == type_string
    then if flavor_of m == flavor_counter then none else some value_type
    else some key_type

-- What INCR answers and leaves behind.
unfoldable pub counted : {S : Type 0} → Option Error → ℤ → S → S → Result ℤ × S
counted (some e) total s after = (err e, s)
counted none total s after = (ok total, after)

-- Reads of metadata that do not fail and change nothing.
abbrev pub ReadsMeta : {S : Type 0} → Registers S → (S → Bytes → Option Meta) → Type 0
ReadsMeta {S} regs meta = (k : Bytes) (s : S) → regs.read_meta k s ≡ (ok (meta s k), s)

counts_only : (f : ℕ) → (is_counter f && f == flavor_counter) ≡ (f == flavor_counter)
unfolding is_counter
counts_only f = ground arith

module _ {S F : Type 0} {ks : Keyspace S} {view : S → Bytes → Option Bytes}
    {kind : S → Bytes → Option ℕ} (works : Works ks view kind) (regs : Registers S)
    (meta : S → Bytes → Option Meta) (reads : ReadsMeta regs meta) (sketches : Sketches S)
    (float64 : Number F) (new_key : Bytes → Bytes) (replica : Bytes) (db : ℤ) where
  counter_flavor_lem :
      (key : Bytes) (s : S)
      → counter_flavor ks regs sketches float64 new_key replica db key flavor_counter s
        ≡ elim (uncountable (kind s key) (meta s key)) [
          | none ↦ (let done : Result (Unit {0}) = ok tt in (done, s))
          | some e ↦ (err e, s)
        ]
  unfolding counter_flavor counter_typed uncountable
  counter_flavor_lem key s = rw (works.probed key s) (elim (Option-cases (kind s key)) [
    | inl free ↦ rw free refl
    | inr (t, is_t) ↦ rw is_t (elim (Bool-cases (t == type_string)) [
      | inl text ↦
          rw (text, reads key s, counts_only (flavor_of (meta s key)))
            (elim (Bool-cases (flavor_of (meta s key) == flavor_counter)) [
              | inl counter ↦ rw counter refl
              | inr other ↦ rw other refl
            ])
      | inr other ↦ rw other refl
    ])
  ])

  -- INCRBY answers the counter's sum plus the delta, in int64 arithmetic, where the key is absent or
  -- holds a counter of integers, and keeps its expiry. On a string that is no such counter it answers
  -- the error of a wrong value, on a key of another type that of a wrong type, and changes nothing.
  -- The datastore works, and the key is not empty.
  pub incr_answers :
      (key : Bytes) (delta : ℤ) (s : S)
      → IsName key
      → (sum : ℤ) × (counter_sum_int ks new_key replica db key s ≡ (ok sum, s))
        × (incr ks regs sketches float64 new_key replica db key delta s
            ≡ counted
                (uncountable (kind s key) (meta s key))
                (add64 sum delta)
                s
                (incr_int ks new_key replica db key delta (etime_or (pos 0) (meta s key)) s).1)
  unfolding incr keep_etime counted
  incr_answers key delta s h =
      let etime_ms = etime_or (pos 0) (meta s key) in
      let (sum, now, total, after) =
        incr_int_total works new_key replica db key delta etime_ms s h in
      (
        sum,
        now,
        rw (counter_flavor_lem key s) (elim (Option-cases (uncountable (kind s key) (meta s key))) [
          | inl may ↦
              rw (may, reads key s)
                (ap (λ r. (r, (incr_int ks new_key replica db key delta etime_ms s).1)) total)
          | inr (e, refused) ↦ rw refused refl
        ]),
      )
