-- ===== src/StrRepo/Guards.antt =====
-- crdtstore/rstring.go: what SET NX does to a key of another type.
use redgeo.Base.{
  Bytes, ℤ, pos, ◌==◌, Option-cases, ℕ, ◌≡◌, refl, inl, inr, true, false, Option, none, some, [],
}
use redgeo.Exec.{ok}
use redgeo.Keyspace.{Keyspace, Works, type_string}
use redgeo.Keys.{str_slot}
use redgeo.Meta.{Meta, is_counter, is_hll, flavor_none, flavor_string}
use redgeo.Slot.{tag_present}
use redgeo.Counters.{Number}
use redgeo.StrRepo.{
  or_else_lem, Registers, Sketches, SetOpts, flavor_of, set_with, set_over, read_value, read_typed,
  write_string, write_new, write_plain, old_value, has_value, is_key_type, value_or_nil, etime_of,
}
use redgeo.StrRepo.Incr.{ReadsMeta}

-- SET key value NX
abbrev pub nx_opts : SetOpts
nx_opts = record {
  ttl_ms = pos 0;
  at_ms = pos 0;
  keep_ttl = false;
  if_exists = false;
  if_not_exists = true;
  get = false;
}

abbrev pub plain_meta : Meta
plain_meta = record { type_id = type_string; flavor = flavor_string; etime_ms = pos 0; epoch = 0 }

module _ {S F : Type 0} {ks : Keyspace S} {view : S → Bytes → Option Bytes}
    {kind : S → Bytes → Option ℕ} (works : Works ks view kind) (regs : Registers S)
    (meta : S → Bytes → Option Meta) (reads : ReadsMeta regs meta) (sketches : Sketches S)
    (float64 : Number F) (new_key : Bytes → Bytes) (replica : Bytes) (db : ℤ) where
  -- SET NX on a live key of another type answers that it has created the key, and writes the string's
  -- slot and its metadata over those of the other type. The datastore works and the slot is written,
  -- the metadata have no flavor, as those of other types have none, and the value is no HyperLogLog.
  pub set_nx_overwrites :
      (key b : Bytes) (t : ℕ) (s : S)
      → kind s key ≡ some t
      → (t == type_string) ≡ false
      → flavor_of (meta s key) ≡ flavor_none
      → sketches.is_redis_hll b ≡ false
      → ((k : Bytes) (v : Bytes) (n : S) → (regs.write_slot k tag_present v n).0 ≡ ok tt)
      → set_with ks regs sketches float64 new_key replica db key b nx_opts s ≡ (
        ok (record { prev = []; created = true; updated = false }),
        (ks.write_meta key plain_meta
            (regs.write_slot (str_slot new_key db key replica) tag_present b s).1).1,
      )
  unfolding set_with set_over read_value read_typed write_string write_new write_plain old_value
      flavor_of has_value is_key_type value_or_nil etime_of is_counter is_hll
  set_nx_overwrites key b t s is_t other no_flavor no_hll writes =
      let slot = str_slot new_key db key replica in
      let s' = (regs.write_slot slot tag_present b s).1 in
      let read = or_else_lem none (regs.read_meta key) s s (meta s key) (reads key s) in
      rw (works.probed key s, is_t)
        (rw other (
          rw read (elim (Option-cases (meta s key)) [
            | inl free ↦
                rw (free, no_hll, writes slot b s, works.write_meta_ok key plain_meta s') refl
            | inr (m, has_meta) ↦
                let f : m.flavor ≡ 0 = cc (has_meta, no_flavor) in
                rw (has_meta, f, no_hll, writes slot b s, works.write_meta_ok key plain_meta s')
                  refl
          ])))
