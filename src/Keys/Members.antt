-- ===== src/Keys/Members.antt =====
-- crdtstore/keys.go: the paths of the members of sets, which no two sets share.
use redgeo.Base.{
  Bytes, IsByte, compare_bytes, bytes_eq, ascii, ℤ, length, length-append, All, All-map,
  drop-append, ℕ, ◌+◌, ◌≤◌, ◌<◌, ◌≡◌, refl, sym, ap, ◌∙◌, true, false, some, List, [], ◌∷◌, ◌++◌,
  arith,
}
use mathlib.Core.List.{append_assoc, append-nil}
use redgeo.Txn.{has_prefix}
use redgeo.Keys.Base32.{enc_seg, dec_seg, dec_seg-enc_seg}
use redgeo.Keys.Paths.{
  path_of, IsPlain, IsSegment, Cleans, IsName, enc_seg-IsSegment, hex-IsPlain, decimal-IsSegment,
  path_prefix, path_same, cons_inj,
}
use mathlib.Core.Option.{some_inj}
use mathlib.Core.Path.{subst}
use redgeo.Keyspace.{trim_prefix, is_meta}
use redgeo.Keys.{data_base, set_base, set_member, meta_base, meta_slot, part, bucket, hex, decimal}

-- the segments of a path of the data of a key
abbrev data_segs : ℤ → Bytes → Bytes → List Bytes → List Bytes
data_segs db key kind rest =
    hex 2 (bucket db key) ∷ ascii "d" ∷ decimal db ∷ enc_seg key ∷ kind ∷ rest

data_base_path :
    (db : ℤ) (key kind x : Bytes)
    → data_base db key (kind ++ ascii "/") ++ x ≡ path_of (data_segs db key kind (x ∷ []))
unfolding data_base part
data_base_path db key kind x = simp (append_assoc, append-nil)

data_base_prefix :
    (db : ℤ) (key kind : Bytes)
    → data_base db key (kind ++ ascii "/") ≡ path_of (data_segs db key kind []) ++ ascii "/"
unfolding data_base part
data_base_prefix db key kind = simp (append_assoc, append-nil)

meta_path :
    (db : ℤ) (key replica : Bytes)
    → meta_base db key ++ enc_seg replica
      ≡ path_of
          (hex 2 (bucket db key) ∷ ascii "m" ∷ decimal db ∷ enc_seg key ∷ enc_seg replica ∷ [])
unfolding meta_base part
meta_path db key replica = simp (append_assoc, append-nil)

hex-long : (v : ℕ) → 0 < length (hex 2 v)
unfolding hex
hex-long v = omega arith

enc_seg-same : (a b : Bytes) → All IsByte a → All IsByte b → enc_seg a ≡ enc_seg b → a ≡ b
enc_seg-same a b h k e =
    some_inj.0 (sym (dec_seg-enc_seg a h) ∙ (ap dec_seg e ∙ dec_seg-enc_seg b k))

has_prefix-append : (xs ys : Bytes) → has_prefix (xs ++ ys) xs ≡ true
unfolding has_prefix
has_prefix-append [] ys = refl
has_prefix-append (x ∷ xs) ys = ground (arith, has_prefix-append xs ys)

data_segs-IsPlain :
    (db : ℤ) (key kind : Bytes) (rest : List Bytes)
    → IsName key
    → IsSegment kind
    → All IsSegment rest
    → All IsSegment (data_segs db key kind rest)
data_segs-IsPlain db key kind rest h k r = (
  (hex-long (bucket db key), hex-IsPlain 2 (bucket db key)),
  (
    (omega arith, ((ground arith, ground arith), tt)),
    (decimal-IsSegment db, (enc_seg-IsSegment key h.1, (k, r))),
  ),
)

segs-IsPlain : (segs : List Bytes) → All IsSegment segs → All IsPlain segs
segs-IsPlain segs h = All-map IsSegment IsPlain (λ s k. k.1) segs h

e_IsSegment : IsSegment (ascii "e")
e_IsSegment = (omega arith, ((ground arith, ground arith), tt))

abbrev member_segs : ℤ → Bytes → Bytes → List Bytes
member_segs db key m = data_segs db key (ascii "e") (enc_seg m ∷ [])

-- What is stored under a set is no metadata.
pub under-data :
    (db : ℤ) (key j : Bytes) → has_prefix j (set_base db key) ≡ true → is_meta j ≡ false
unfolding has_prefix set_base data_base part hex bytes_eq compare_bytes
under-data db key (a ∷ b ∷ c ∷ d ∷ e ∷ f ∷ j) under = ground arith
under-data db key (a ∷ b ∷ c ∷ d ∷ e ∷ []) under = ground arith
under-data db key (a ∷ b ∷ c ∷ d ∷ []) under = ground arith
under-data db key (a ∷ b ∷ c ∷ []) under = ground arith
under-data db key (a ∷ b ∷ []) under = ground arith
under-data db key (a ∷ []) under = ground arith
under-data db key [] under = ground arith

module _ {new_key : Bytes → Bytes} (cleans : Cleans new_key) (db : ℤ) where
  member_segs-IsSegment :
      (key m : Bytes) → IsName key → IsName m → All IsSegment (member_segs db key m)
  member_segs-IsSegment key m h k =
      data_segs-IsPlain db key (ascii "e") (enc_seg m ∷ []) h e_IsSegment
        (enc_seg-IsSegment m k.1, tt)

  set_member-path :
      (key m : Bytes)
      → IsName key
      → IsName m
      → set_member new_key db key m ≡ path_of (member_segs db key m)
  unfolding set_member set_base
  set_member-path key m h k =
      ap new_key (data_base_path db key (ascii "e") (enc_seg m))
      ∙ cleans.kept (member_segs db key m) (member_segs-IsSegment key m h k)

  set_member-base :
      (key m : Bytes)
      → IsName key
      → IsName m
      → set_member new_key db key m ≡ set_base db key ++ enc_seg m
  unfolding set_base
  set_member-base key m h k =
      set_member-path key m h k ∙ sym (data_base_path db key (ascii "e") (enc_seg m))

  pub set_member-under :
      (key m : Bytes)
      → IsName key
      → IsName m
      → has_prefix (set_member new_key db key m) (set_base db key) ≡ true
  set_member-under key m h k =
      rw (set_member-base key m h k) (has_prefix-append (set_base db key) (enc_seg m))

  -- Members are no metadata.
  pub set_member-data :
      (key m : Bytes) → IsName key → IsName m → is_meta (set_member new_key db key m) ≡ false
  unfolding hex bytes_eq compare_bytes
  set_member-data key m h k = rw (set_member-path key m h k) refl

  -- The member is read off the path.
  pub dec_seg-set_member :
      (key m : Bytes)
      → IsName key
      → IsName m
      → dec_seg (trim_prefix (set_member new_key db key m) (set_base db key)) ≡ some m
  unfolding trim_prefix
  dec_seg-set_member key m h k =
      rw
        (
          set_member-base key m h k,
          has_prefix-append (set_base db key) (enc_seg m),
          drop-append (length (set_base db key)) (set_base db key) (enc_seg m) refl,
        )
        (dec_seg-enc_seg m k.0)

  -- Two members with one path are one member of one set.
  pub set_member-same :
      (key key' m m' : Bytes)
      → IsName key
      → IsName key'
      → IsName m
      → IsName m'
      → set_member new_key db key m ≡ set_member new_key db key' m'
      → (key ≡ key') × (m ≡ m')
  set_member-same key key' m m' h h' k k' e =
      let segs : member_segs db key m ≡ member_segs db key' m' =
        path_same (member_segs db key m) (member_segs db key' m')
          (segs-IsPlain (member_segs db key m) (member_segs-IsSegment key m h k))
          (segs-IsPlain (member_segs db key' m') (member_segs-IsSegment key' m' h' k'))
          (sym (set_member-path key m h k) ∙ (e ∙ set_member-path key' m' h' k')) in
      let at_key = cons_inj (cons_inj (cons_inj (cons_inj segs).1).1).1 in
      (
        enc_seg-same key key' h.0 h'.0 at_key.0,
        enc_seg-same m m' k.0 k'.0 (cons_inj (cons_inj at_key.1).1).0,
      )

  pub under-set_base :
      (key key' m : Bytes)
      → IsName key
      → IsName key'
      → IsName m
      → has_prefix (set_member new_key db key' m) (set_base db key) ≡ true
      → key' ≡ key
  unfolding set_base
  under-set_base key key' m h h' k under =
      let base = data_segs db key (ascii "e") [] in
      let (rest, segs) =
        path_prefix (member_segs db key' m) base
          (segs-IsPlain (member_segs db key' m) (member_segs-IsSegment key' m h' k))
          (segs-IsPlain base (data_segs-IsPlain db key (ascii "e") [] h e_IsSegment tt))
          (subst (λ p. has_prefix (path_of (member_segs db key' m)) p ≡ true)
            (data_base_prefix db key (ascii "e"))
            (subst (λ p. has_prefix p (set_base db key) ≡ true) (set_member-path key' m h' k)
              under)) in
      enc_seg-same key' key h'.0 h.0 (cons_inj (cons_inj (cons_inj (cons_inj segs).1).1).1).0

  prefix-length : (k p : Bytes) → has_prefix k p ≡ true → length p ≤ length k
  unfolding has_prefix
  prefix-length k [] h = omega arith
  prefix-length [] (x ∷ p) h = absurd (cc h)
  prefix-length (y ∷ k) (x ∷ p) h = omega (arith, prefix-length k p (ground arith))

  -- The empty member is stored beside its set, not under it.
  pub empty_member-path :
      (key : Bytes)
      → IsName key
      → set_member new_key db key [] ≡ path_of (data_segs db key (ascii "e") [])
  unfolding set_member set_base enc_seg
  empty_member-path key h =
      ap new_key (append-nil (data_base db key (ascii "e/")) ∙ data_base_prefix db key (ascii "e"))
      ∙ cleans.slash (data_segs db key (ascii "e") [])
          (data_segs-IsPlain db key (ascii "e") [] h e_IsSegment tt) (omega arith)

  pub empty_member-data :
      (key : Bytes) → IsName key → is_meta (set_member new_key db key []) ≡ false
  unfolding hex bytes_eq compare_bytes
  empty_member-data key h = rw (empty_member-path key h) refl

  pub empty_member-outside :
      (key key' : Bytes)
      → IsName key
      → IsName key'
      → has_prefix (set_member new_key db key []) (set_base db key') ≡ true
      → ⊥
  unfolding set_base
  empty_member-outside key key' h h' under =
      let own = data_segs db key (ascii "e") [] in
      let base = data_segs db key' (ascii "e") [] in
      let under' : has_prefix (path_of own) (path_of base ++ ascii "/") ≡ true =
        subst (λ p. has_prefix (path_of own) p ≡ true) (data_base_prefix db key' (ascii "e"))
          (subst (λ p. has_prefix p (set_base db key') ≡ true) (empty_member-path key h) under) in
      let (rest, segs) =
        path_prefix own base
          (segs-IsPlain own (data_segs-IsPlain db key (ascii "e") [] h e_IsSegment tt))
          (segs-IsPlain base (data_segs-IsPlain db key' (ascii "e") [] h' e_IsSegment tt)) under' in
      let same =
        enc_seg-same key key' h.0 h'.0 (cons_inj (cons_inj (cons_inj (cons_inj segs).1).1).1).0 in
      let long = prefix-length (path_of own) (path_of base ++ ascii "/") under' in
      let longer : length (path_of base ++ ascii "/") ≡ length (path_of own) + 1 =
        length-append (path_of base) (ascii "/")
        ∙ ap (λ k. length (path_of (data_segs db k (ascii "e") [])) + 1) (sym same) in
      absurd (omega (arith, long, longer))

  -- Metadata are stored as metadata.
  pub meta_slot-meta :
      (key replica : Bytes)
      → IsName key
      → IsName replica
      → is_meta (meta_slot new_key db key replica) ≡ true
  unfolding meta_slot meta_base part hex bytes_eq compare_bytes
  meta_slot-meta key replica h k =
      let segs =
        hex 2 (bucket db key) ∷ ascii "m" ∷ decimal db ∷ enc_seg key ∷ enc_seg replica ∷ [] in
      let plain : All IsSegment segs = (
        (hex-long (bucket db key), hex-IsPlain 2 (bucket db key)),
        (
          (omega arith, ((ground arith, ground arith), tt)),
          (decimal-IsSegment db, (enc_seg-IsSegment key h.1, (enc_seg-IsSegment replica k.1, tt))),
        ),
      ) in
      let path : meta_slot new_key db key replica ≡ path_of segs =
        ap new_key (meta_path db key replica) ∙ cleans.kept segs plain in
      rw path refl
