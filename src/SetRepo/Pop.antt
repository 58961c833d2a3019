-- ===== src/SetRepo/Pop.antt =====
-- crdtstore/rset.go: Pop takes a member out of the set.
use redgeo.Base.{
  Bytes, bytes_eq, bytes_eq_iff, ℤ, length, All, contains, ◌==◌, if◌then◌else◌, ==_iff, Bool-cases,
  ℕ, zero, suc, ◌<◌, ◌≡◌, refl, sym, ap, ◌∙◌, ◌⊎◌, inl, inr, Bool, true, false, not, ◌&&◌, Option,
  List, [], ◌∷◌, arith,
}
use mathlib.Core.Path.{subst}
use redgeo.Exec.{ok, err, not_found}
use redgeo.Keyspace.{Keyspace, Works}
use redgeo.Keys.{set_member}
use redgeo.Keys.Paths.{Cleans, IsName}
use redgeo.SetRepo.{pop, pick, items}
use redgeo.SetRepo.Contents.{contents, Canonical}
use redgeo.SetRepo.Steps.{del-contents, del-Canonical, Shows, same-Shows, SameView}
use redgeo.SetRepo.Algebra.{items-Answers, IsReadable}

pick_lem :
    (mem : List Bytes) (i : ℕ)
    → i < length mem
    → All IsName mem
    → IsName (pick mem i) × (contains mem (pick mem i) ≡ true)
unfolding pick contains
pick_lem [] i h names = absurd (omega (arith, h))
pick_lem (m ∷ mem) zero h names = (names.0, rw ((bytes_eq_iff m m).1 refl) refl)
pick_lem (m ∷ mem) (suc i) h names =
    let (name, found) = pick_lem mem i (omega (arith, h)) names.1 in (name, ground (arith, found))

module _ {S : Type 0} {ks : Keyspace S} {view : S → Bytes → Option Bytes}
    {kind : S → Bytes → Option ℕ} (works : Works ks view kind) {new_key : Bytes → Bytes}
    (cleans : Cleans new_key) (db : ℤ) where
  popped : S → Bytes → Bytes → Bytes → Bytes → Bool
  popped s key m key' x =
      contents works cleans db s key' x && not (bytes_eq key key' && bytes_eq m x)

  -- the state after the metadata of a set with one member went too
  swept : Bytes → List Bytes → S → S
  swept key mem s = if length mem == 1 then (ks.delete_meta key s).1 else s

  swept-SameView :
      (key : Bytes) (mem : List Bytes) (s : S)
      → IsName key
      → SameView works cleans db s (swept key mem s)
  unfolding swept
  swept-SameView key mem s h = elim (Bool-cases (length mem == 1)) [
    | inl one ↦ rw one (λ j apart. works.delete_meta_view key s j h apart)
    | inr more ↦ rw more (λ j apart. refl)
  ]

  pop_step :
      (draw : ℕ → ℕ) (key : Bytes) (s : S) (mem : List Bytes)
      → items ks new_key db key s ≡ (ok mem, s)
      → (length mem == 0) ≡ false
      → pop ks new_key db draw key s ≡ (
        ok (pick mem (draw (length mem))),
        swept key mem (ks.del (set_member new_key db key (pick mem (draw (length mem)))) s).1,
      )
  unfolding pop swept
  pop_step draw key s mem got more =
      let mk = set_member new_key db key (pick mem (draw (length mem))) in
      rw got (
        rw (more, works.del_ok mk s)
          (elim (Bool-cases (length mem == 1)) [ inl one ↦ rw one refl | inr two ↦ rw two refl ]))

  -- SPOP of a set without members reports that nothing is found and changes nothing. Of any other it
  -- answers a member and takes it out, and changes no other member of any set; it deletes the key's
  -- metadata exactly if that was the only member that SMEMBERS lists. The random index is below the
  -- number of members; the datastore works, the key holds a set or nothing, no name is empty, and only
  -- members are stored under sets.
  pub pop-refines :
      (draw : ℕ → ℕ) (key : Bytes) (s : S)
      → ((n : ℕ) → 0 < n → draw n < n)
      → (canonical : Canonical works cleans db s) → IsReadable works cleans db s canonical key
      → (((x : Bytes) → IsName x → contents works cleans db s key x ≡ false)
          × (pop ks new_key db draw key s ≡ (err not_found, s)))
        ⊎ ((m : Bytes) × IsName m
            × (contents works cleans db s key m ≡ true)
            × ((pop ks new_key db draw key s).0 ≡ ok m)
            × (mem : List Bytes) × (items ks new_key db key s ≡ (ok mem, s))
            × ((pop ks new_key db draw key s).1 ≡ (
                let s' = (ks.del (set_member new_key db key m) s).1 in
                if length mem == 1 then (ks.delete_meta key s').1 else s'))
            × Shows works cleans db (pop ks new_key db draw key s).1 (λ key' x.
              contents works cleans db s key' x && not (bytes_eq key key' && bytes_eq m x)))
  unfolding pop popped contains swept
  pop-refines draw key s below canonical h =
      let (mem, got, names, reads) = items-Answers works cleans db s canonical key h in
      elim (Bool-cases (length mem == 0)) [
        | inl empty ↦ inl (
          λ x k. sym (reads x k) ∙ none_in mem x ((==_iff (length mem) 0).0 empty),
          rw got (rw empty refl),
        )
        | inr more ↦
            let m = pick mem (draw (length mem)) in
            let mk = set_member new_key db key m in
            let s' = (ks.del mk s).1 in
            let (name, found) =
              pick_lem mem (draw (length mem)) (below (length mem) (ground arith)) names in
            let shows : Shows works cleans db s' (popped s key m) = (
              del-Canonical works cleans db s mk canonical,
              λ key' x h' k. del-contents works cleans db s key m key' x h.0 h' name k,
            ) in
            let step = pop_step draw key s mem got more in
            inr (
              m,
              name,
              sym (reads m name) ∙ found,
              ap (λ r. r.0) step,
              mem,
              got,
              ap (λ r. r.1) step,
              subst (λ r. Shows works cleans db r.1 (popped s key m)) (sym step)
                  (same-Shows works cleans db s' (swept key mem s') (popped s key m)
                    (swept-SameView key mem s' h.0) shows),
            )
      ]
    where
      none_in : (ms : List Bytes) (x : Bytes) → length ms ≡ 0 → contains ms x ≡ false
      none_in [] x e = refl
      none_in (y ∷ ms) x e = absurd (omega (arith, e))
