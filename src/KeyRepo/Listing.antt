-- ===== src/KeyRepo/Listing.antt =====
-- crdtstore/rkey.go: the names that listKeys lists are live.
use redgeo.Base.{
  Bytes, ℤ, All, contains, sort, sort-All, Bool-cases, Option-cases, ℕ, ◌≡◌, refl, ap, inl, inr,
  true, Option, List, [], ◌∷◌,
}
use redgeo.Exec.{ok}
use redgeo.Keyspace.{Keyspace, Works, trim_prefix, is_some}
use redgeo.Keys.{db_meta_prefixes}
use redgeo.Keys.Base32.{dec_seg}
use redgeo.Txn.{Entry}
use redgeo.StrRepo.{Registers}
use redgeo.KeyRepo.{KeyOps, before_slash, list_entries, list_prefixes, list_keys}

module _ {S : Type 0} {ks : Keyspace S} {view : S → Bytes → Option Bytes}
    {kind : S → Bytes → Option ℕ} (works : Works ks view kind) (regs : Registers S) (ops : KeyOps S)
    (db : ℤ) (s : S) where
  abbrev pub IsLive : Bytes → Type 0
  IsLive key = is_some (kind s key) ≡ true

  -- Each name is seen once, and only live ones are kept.
  list_entries-IsLive :
      (prefix : Bytes) (seen keys : List Bytes) (entries : List Entry)
      → All IsLive keys
      → (seen' keys' : List Bytes) × (list_entries ks regs ops db prefix seen keys entries s
          ≡ (ok (seen', keys'), s))
        × All IsLive keys'
  unfolding list_entries
  list_entries-IsLive prefix seen keys [] h = (seen, keys, refl, h)
  list_entries-IsLive prefix seen keys (e ∷ entries) h =
      elim (Option-cases (dec_seg (before_slash (trim_prefix e.key prefix)))) [
        | inl bad ↦
            let (seen', keys', done, h') = list_entries-IsLive prefix seen keys entries h in
            (seen', keys', rw (bad, list_entries) done, h')
        | inr (key, good) ↦ elim (Bool-cases (contains seen key)) [
          | inl again ↦
              let (seen', keys', done, h') = list_entries-IsLive prefix seen keys entries h in
              (seen', keys', rw (good, again, list_entries) done, h')
          | inr new ↦ elim (Option-cases (kind s key)) [
            | inl gone ↦
                let (seen', keys', done, h') =
                  list_entries-IsLive prefix (key ∷ seen) keys entries h in
                (
                  seen',
                  keys',
                  rw (good, new, works.probed key s, gone, list_entries)
                      (rw (works.probed key s) done),
                  h',
                )
            | inr (t, live) ↦
                let (seen', keys', done, h') =
                  list_entries-IsLive prefix (key ∷ seen) (key ∷ keys) entries
                    (ap is_some live, h) in
                (
                  seen',
                  keys',
                  rw (good, new, works.probed key s, live, list_entries)
                      (rw (works.probed key s) done),
                  h',
                )
          ]
        ]
      ]

  list_prefixes-IsLive :
      (seen keys prefixes : List Bytes)
      → All IsLive keys
      → (keys' : List Bytes) × (list_prefixes ks regs ops db seen keys prefixes s ≡ (ok keys', s))
        × All IsLive keys'
  unfolding list_prefixes
  list_prefixes-IsLive seen keys [] h = (keys, refl, h)
  list_prefixes-IsLive seen keys (prefix ∷ prefixes) h =
      let (seen', found, listed, h') =
        list_entries-IsLive prefix seen keys (works.listed prefix true s) h in
      let (keys', done, h'') = list_prefixes-IsLive seen' found prefixes h' in
      (keys', rw (works.query_ok prefix true s) (rw listed done), h'')

  -- listKeys changes nothing and lists live keys only. The datastore works.
  pub list_keys-IsLive :
      (names : List Bytes) × (list_keys ks regs ops db s ≡ (ok names, s)) × All IsLive names
  unfolding list_keys
  list_keys-IsLive =
      let (keys, done, h) = list_prefixes-IsLive [] [] (db_meta_prefixes db) tt in
      (sort keys, rw done refl, sort-All IsLive keys h)
