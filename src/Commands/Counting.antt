-- ===== src/Commands/Counting.antt =====
-- command/string over crdtstore/rstring.go and counter.go: INCRBY and DECRBY, from their arguments to
-- their reply.
use redgeo.Base.{
  Bytes, ℤ, pos, if◌then◌else◌, ℕ, ◌≡◌, refl, ap, ◌∙◌, Bool, true, false, Option, none, some, List,
  [], ◌∷◌, arith,
}
use redgeo.Exec.{Error, ok}
use redgeo.Keyspace.{Keyspace, Works}
use redgeo.Keys.Paths.{IsName}
use redgeo.Meta.{Meta}
use redgeo.Parser.{string, int}
use redgeo.Parser.Atoi.{atoi}
use redgeo.Parser.Pipeline.{run, rounds, try_parsers}
use redgeo.ListRepo.{neg64}
use redgeo.Counters.{component_of, int64, Number, add64, counter_sum_int, incr_int}
use redgeo.Counters.Total.{counter_meta, stored_components, incr_int_state}
use redgeo.Keys.{counter_slot, decimal}
use redgeo.StrRepo.{Registers, Sketches, etime_or}
use redgeo.StrRepo.Incr.{ReadsMeta, uncountable, counted, incr_answers}
use redgeo.Commands.{Reply, write_int, write_error, parsed, parse, as_parsed}
use redgeo.Commands.Strings.{
  IncrBy, parse_incrby, incrby_parsers, with_sign, signed, run_incr, reply_int,
}

unfoldable pub signed_delta : Bool → ℤ → ℤ
signed_delta negative n = if negative then neg64 n else n

-- The reply to a sum, or to the reason why the key cannot be counted.
unfoldable pub reply_counted : Option Error → ℤ → List Reply
reply_counted none total = write_int total ∷ []
reply_counted (some e) total = write_error e ∷ []

parse-incrby_parsers :
    (key arg : Bytes) (n : ℤ)
    → atoi arg ≡ (n, true)
    → parse 2 incrby_parsers (record { key = []; delta = pos 0 }) (key ∷ arg ∷ [])
      ≡ parsed (record { key = key; delta = n })
unfolding parse run rounds try_parsers string int as_parsed
parse-incrby_parsers key arg n read = ground (arith, read)

parse_incrby-args :
    (key arg : Bytes) (n : ℤ) (negative : Bool)
    → atoi arg ≡ (n, true)
    → parse_incrby (key ∷ arg ∷ []) negative
      ≡ parsed (record { key = key; delta = signed_delta negative n })
unfolding parse_incrby with_sign signed signed_delta
parse_incrby-args key arg n true read = ap (with_sign true) (parse-incrby_parsers key arg n read)
parse_incrby-args key arg n false read = ap (with_sign false) (parse-incrby_parsers key arg n read)

reply_int-counted :
    {S : Type 0} (why : Option Error) (total : ℤ) (s after : S)
    → reply_int (counted why total s after).0 ≡ reply_counted why total
unfolding reply_int counted reply_counted
reply_int-counted none total s after = refl
reply_int-counted (some e) total s after = refl

module _ {S F : Type 0} {ks : Keyspace S} {view : S → Bytes → Option Bytes}
    {kind : S → Bytes → Option ℕ} (works : Works ks view kind) (regs : Registers S)
    (meta : S → Bytes → Option Meta) (reads : ReadsMeta regs meta) (sketches : Sketches S)
    (float64 : Number F) (new_key : Bytes → Bytes) (replica : Bytes) (db : ℤ) where
  -- INCRBY and DECRBY of a number are parsed as such. Run, on an absent key or a counter of integers
  -- they reply with the sum of the counter plus or minus the number, in int64 arithmetic, and store
  -- this replica's component plus or minus the number, and the metadata of a counter with the expiry
  -- that the key's metadata had, one that has passed among them; on a string that is no such counter they reply the error of a wrong value, on a key of
  -- another type that of a wrong type, and change nothing. The datastore works, the argument is one
  -- that Atoi reads, and the key is not empty.
  pub incrby_replies :
      (key arg : Bytes) (n : ℤ) (negative : Bool) (s : S)
      → atoi arg ≡ (n, true)
      → IsName key
      → (c : IncrBy) × (parse_incrby (key ∷ arg ∷ []) negative ≡ parsed c)
        × (sum : ℤ) × (counter_sum_int ks new_key replica db key s ≡ (ok sum, s))
        × ((run_incr ks regs sketches float64 new_key replica db c s).0
            ≡ reply_counted
                (uncountable (kind s key) (meta s key))
                (add64 sum (signed_delta negative n)))
        × ((run_incr ks regs sketches float64 new_key replica db c s).1
            ≡ (counted
                (uncountable (kind s key) (meta s key))
                (add64 sum (signed_delta negative n))
                s
                (ks.write_meta key
                  (counter_meta (etime_or (pos 0) (meta s key)))
                  (ks.put
                    (counter_slot new_key db key replica)
                    (decimal (
                      add64
                        (component_of int64 replica
                          (stored_components works new_key replica db s key))
                        (signed_delta negative n)))
                    s).1).1).1)
  unfolding run_incr
  incrby_replies key arg n negative s read h =
      let delta = signed_delta negative n in
      let (sum, now, done) =
        incr_answers works regs meta reads sketches float64 new_key replica db key delta s h in
      let why = uncountable (kind s key) (meta s key) in
      let after = (incr_int ks new_key replica db key delta (etime_or (pos 0) (meta s key)) s).1 in
      (
        record { key = key; delta = delta },
        parse_incrby-args key arg n negative read,
        sum,
        now,
        ap (λ r. reply_int r.0) done ∙ reply_int-counted why (add64 sum delta) s after,
        ap (λ r. r.1) done
            ∙ ap (λ s'. (counted why (add64 sum delta) s s').1)
                (incr_int_state works new_key replica db key delta (etime_or (pos 0) (meta s key))
                  s),
      )
