-- ===== src/SetRepo/Steps.antt =====
-- crdtstore/rset.go: what one stored or deleted member, and the writes of metadata, do to the sets.
use redgeo.Base.{
  Bytes, bytes_eq, bytes_eq_iff, ℤ, length, All, ◌==◌, if◌then◌else◌, Bool-cases, ℕ, ◌+◌, ◌≡◌, refl,
  sym, ap, ◌∙◌, ◌⊎◌, inl, inr, Bool, true, false, not, ◌&&◌, ◌||◌, Option, none, some, List, [],
  ◌∷◌, arith,
}
use mathlib.Core.Path.{subst}
use redgeo.Exec.{ok}
use redgeo.Keyspace.{Keyspace, Works, is_meta, is_some, type_set, ensure_type, meta_of}
use redgeo.Keys.{set_base, set_member}
use redgeo.Keys.Paths.{Cleans, IsName}
use redgeo.Keys.Members.{set_member-same, set_member-data, under-set_base, under-data}
use redgeo.Txn.{has_prefix}
use redgeo.SetRepo.{presence, drop_if_empty, members}
use redgeo.Exec.{Exec, ok, pure, ignore, on_ok_lem}
use redgeo.SetRepo.Contents.{bool_iff, contents, Canonical, mem_of, members_lem}

-- How many of the elements are new to a set, one added after the other; and how many are removed.
unfoldable pub fresh : (Bytes → Bool) → List Bytes → ℕ
fresh f [] = 0
fresh f (m ∷ elems) = (if f m then 0 else 1) + fresh (λ x. bytes_eq m x || f x) elems

unfoldable pub gone : (Bytes → Bool) → List Bytes → ℕ
gone f [] = 0
gone f (m ∷ elems) = (if f m then 1 else 0) + gone (λ x. f x && not (bytes_eq m x)) elems

abbrev pub Agree : (Bytes → Bool) → (Bytes → Bool) → Type 0
Agree f g = (x : Bytes) → IsName x → f x ≡ g x

pub fresh-same :
    (f g : Bytes → Bool) (elems : List Bytes)
    → Agree f g
    → All IsName elems
    → fresh f elems ≡ fresh g elems
unfolding fresh
fresh-same f g [] agree h = refl
fresh-same f g (m ∷ elems) agree h = rw (agree m h.0) (
    ap (◌+◌ (if g m then 0 else 1)) (
      fresh-same (λ x. bytes_eq m x || f x) (λ x. bytes_eq m x || g x) elems
        (λ x k. ap (◌||◌ (bytes_eq m x)) (agree x k)) h.1))

pub gone-same :
    (f g : Bytes → Bool) (elems : List Bytes)
    → Agree f g
    → All IsName elems
    → gone f elems ≡ gone g elems
unfolding gone
gone-same f g [] agree h = refl
gone-same f g (m ∷ elems) agree h = rw (agree m h.0) (
    ap (◌+◌ (if g m then 1 else 0)) (
      gone-same (λ x. f x && not (bytes_eq m x)) (λ x. g x && not (bytes_eq m x)) elems
        (λ x k. ap (λ b. b && not (bytes_eq m x)) (agree x k)) h.1))

module _ {S : Type 0} {ks : Keyspace S} {view : S → Bytes → Option Bytes}
    {kind : S → Bytes → Option ℕ} (works : Works ks view kind) {new_key : Bytes → Bytes}
    (cleans : Cleans new_key) (db : ℤ) where
  set_member-eq :
      (key key' m x : Bytes)
      → IsName key
      → IsName key'
      → IsName m
      → IsName x
      → bytes_eq (set_member new_key db key m) (set_member new_key db key' x)
        ≡ (bytes_eq key key' && bytes_eq m x)
  set_member-eq key key' m x h h' k k' =
      bool_iff _ _
        (λ same.
          let both =
            set_member-same cleans db key key' m x h h' k k' (
              (bytes_eq_iff (set_member new_key db key m) (set_member new_key db key' x)).0 same) in
          cc ((bytes_eq_iff key key').1 both.0, (bytes_eq_iff m x).1 both.1))
        (λ both.
          let at_key : bytes_eq key key' ≡ true = ground arith in
          let at_member : bytes_eq m x ≡ true = ground arith in
          (bytes_eq_iff (set_member new_key db key m) (set_member new_key db key' x)).1
            (cc ((bytes_eq_iff key key').0 at_key, (bytes_eq_iff m x).0 at_member)))

  -- One element put, or deleted.
  pub put-contents :
      (s : S) (key m key' x : Bytes)
      → IsName key
      → IsName key'
      → IsName m
      → IsName x
      → contents works cleans db (ks.put (set_member new_key db key m) presence s).1 key' x
        ≡ ((bytes_eq key key' && bytes_eq m x) || contents works cleans db s key' x)
  unfolding contents
  put-contents s key m key' x h h' k k' =
      rw
        (
          works.put_view (set_member new_key db key m) presence s (set_member new_key db key' x),
          set_member-eq key key' m x h h' k k',
        )
        (ground arith)

  pub del-contents :
      (s : S) (key m key' x : Bytes)
      → IsName key
      → IsName key'
      → IsName m
      → IsName x
      → contents works cleans db (ks.del (set_member new_key db key m) s).1 key' x
        ≡ (contents works cleans db s key' x && not (bytes_eq key key' && bytes_eq m x))
  unfolding contents
  del-contents s key m key' x h h' k k' =
      rw
        (
          works.del_view (set_member new_key db key m) s (set_member new_key db key' x),
          set_member-eq key key' m x h h' k k',
        )
        (ground arith)

  pub put-Canonical :
      (s : S) (key m : Bytes)
      → IsName key
      → IsName m
      → Canonical works cleans db s
      → Canonical works cleans db (ks.put (set_member new_key db key m) presence s).1
  put-Canonical s key m h k canonical key' j h' under there =
      let mk = set_member new_key db key m in
      elim (Bool-cases (bytes_eq mk j)) [
        | inl this ↦
            let is_it = (bytes_eq_iff mk j).0 this in
            let same =
              under-set_base cleans db key' key m h' h k
                (subst (λ i. has_prefix i (set_base db key') ≡ true) (sym is_it) under) in
            (m, k, sym is_it ∙ ap (λ i. set_member new_key db i m) same)
        | inr other ↦
            canonical key' j h' under
              (ap is_some (sym (works.put_view mk presence s j ∙ rw other refl)) ∙ there)
      ]

  pub del-Canonical :
      (s : S) (j : Bytes) → Canonical works cleans db s → Canonical works cleans db (ks.del j s).1
  del-Canonical s j canonical key' i h' under there =
      canonical key' i h' under (ground (arith, works.del_view j s i))

  abbrev pub SameView : S → S → Type 0
  SameView s s' = (j : Bytes) → is_meta j ≡ false → view s' j ≡ view s j

  pub same-contents :
      (s s' : S) (key x : Bytes)
      → SameView s s'
      → IsName key
      → IsName x
      → contents works cleans db s' key x ≡ contents works cleans db s key x
  unfolding contents
  same-contents s s' key x same h k =
      ap is_some (same (set_member new_key db key x) (set_member-data cleans db key x h k))

  pub same-Canonical :
      (s s' : S) → SameView s s' → Canonical works cleans db s → Canonical works cleans db s'
  same-Canonical s s' same canonical key j h under there =
      canonical key j h under (ap is_some (sym (same j (under-data db key j under))) ∙ there)

  -- A state whose sets are those of `f`.
  abbrev pub Shows : S → (Bytes → Bytes → Bool) → Type 0
  Shows s f =
      Canonical works cleans db s
      × ((key x : Bytes) → IsName key → IsName x → contents works cleans db s key x ≡ f key x)

  -- A key that holds a set or nothing.
  abbrev pub IsSetKey : S → Bytes → Type 0
  IsSetKey s key = (kind s key ≡ none) ⊎ (kind s key ≡ some type_set)

  pub ensure_type_lem :
      (key : Bytes) (s : S) → IsSetKey s key → ensure_type ks type_set key s ≡ (ok tt, s)
  unfolding ensure_type
  ensure_type_lem key s (inl free) = rw (works.probed key s, free) refl
  ensure_type_lem key s (inr set) = rw (works.probed key s, set) refl

  pub same-Shows : (s s' : S) (f : Bytes → Bytes → Bool) → SameView s s' → Shows s f → Shows s' f
  same-Shows s s' f same (canonical, shows) = (
    same-Canonical s s' same canonical,
    λ key x h k. same-contents s s' key x same h k ∙ shows key x h k,
  )

  pub meta-SameView :
      (key : Bytes) (s : S) → IsName key → SameView s (ks.write_meta key (meta_of type_set) s).1
  meta-SameView key s h j apart = works.write_meta_view key (meta_of type_set) s j h apart

  -- The metadata of an emptied set go, and nothing else.
  pub drop_if_empty_lem :
      (key : Bytes) (s : S)
      → IsName key
      → ((drop_if_empty ks new_key db key s).0 ≡ ok tt)
        × SameView s (drop_if_empty ks new_key db key s).1
  unfolding drop_if_empty
  drop_if_empty_lem key s h =
      let mem = mem_of works cleans db s key in
      let tail : List Bytes → Exec S (Unit {0}) =
        λ mem. if length mem == 0 then ignore (ks.delete_meta key) else pure tt in
      let step : drop_if_empty ks new_key db key s ≡ tail mem s =
        on_ok_lem (members ks new_key db key) tail s s mem (members_lem works cleans db key s) in
      rw step (elim (Bool-cases (length mem == 0)) [
        | inl empty ↦ rw empty (refl, λ j apart. works.delete_meta_view key s j h apart)
        | inr more ↦ rw more (refl, λ j apart. refl)
      ])
