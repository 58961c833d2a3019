-- ===== src/Scan/Ending.antt =====
-- crdtstore/scan.go: how a page of a scan ends.
use mathlib.Core.Path.{subst}
use redgeo.Base.Maps.{nat_key}
use redgeo.Base.{
  Bytes, ℤ, lez, pos, negsuc, length, get_or, drop, length-drop, ltb, ◌==◌, Bool-cases,
  Option-cases, ℕ, zero, suc, ◌+◌, ◌-◌, ◌≤◌, ◌<◌, ◌≡◌, refl, sym, ap, ◌∙◌, ◌≢◌, ◌⊎◌, inl, inr,
  false, none, some, List, [], ◌∷◌, ◌++◌, arith, bytes_key,
}
use redgeo.Scan.{
  Query, ResumeTable, Page, page_size, page_from, last_of, expiry, token_after, alloc, gc, start_of,
  freed, close_page, scan_page,
}
use redgeo.Scan.Paging.{all_from, page_from-last, page_from-short}
use redgeo.Scan.Cursor.{
  Ascending, after_last-get_or, token_after-pos, i64-pos, start_of-alloc, start_of-freed,
}

page_size-pos : (count : ℤ) → 0 < page_size count
unfolding page_size
page_size-pos (pos zero) = omega arith
page_size-pos (pos (suc n)) = omega arith
page_size-pos (negsuc n) = omega arith

-- How a page ends: with no cursor, having all the matches from its start on; or with a cursor that
-- leads behind its last match.
abbrev pub EndsRight : ℤ → Query → List Bytes → ℕ → ℤ → Page → Type 0
EndsRight now q names start ttl p =
    ((p.cursor ≡ pos 0) × (p.found ≡ all_from q start (drop start names)))
    ⊎ ((p.cursor ≢ pos 0)
        × (p.table.ttl_ms ≡ ttl)
        × ((l : ℕ) × (start ≤ l)
            × (l < length names)
            × (p.found ++ all_from q (l + 1) (drop (l + 1) names)
                ≡ all_from q start (drop start names))
            × ((now' : ℤ)
                → lez (expiry now ttl) now' ≡ false
                → (start_of now' q p.cursor names p.table).0 ≡ l + 1)))

drop-nil : (n : ℕ) → drop n (let xs : List Bytes = [] in xs) ≡ []
drop-nil zero = refl
drop-nil (suc n) = refl

drop-drop : (m n : ℕ) (xs : List Bytes) → drop m (drop n xs) ≡ drop (n + m) xs
drop-drop m zero xs = let same : m ≡ zero + m = omega arith in ap (λ k. drop k xs) same
drop-drop m (suc n) [] = drop-nil m ∙ sym (drop-nil (suc n + m))
drop-drop m (suc n) (x ∷ xs) =
    let same : suc (n + m) ≡ suc n + m = omega arith in
    drop-drop m n xs ∙ ap (λ k. drop k (x ∷ xs)) same

drop-all : (n : ℕ) (xs : List Bytes) → length xs ≤ n → drop n xs ≡ []
drop-all n [] h = drop-nil n
drop-all zero (x ∷ xs) h = absurd (omega arith)
drop-all (suc n) (x ∷ xs) h = drop-all n xs (omega arith)

last_of-none : (page : List ℕ) → last_of page ≡ none → length page ≡ 0
unfolding last_of
last_of-none [] h = refl
last_of-none (i ∷ []) h = absurd (ground (arith, h))
last_of-none (i ∷ j ∷ page) h = absurd (ground (arith, last_of-none (j ∷ page) h))

-- A full page of the names that are left, its last match at `l`.
full_page :
    (q : Query) (names : List Bytes) (start l : ℕ)
    → start ≤ length names
    → last_of (page_from q (page_size q.count) 0 start (drop start names)) ≡ some l
    → ltb (length (page_from q (page_size q.count) 0 start (drop start names))) (page_size q.count)
      ≡ false
    → (start ≤ l)
      × (l < length names)
      × (page_from q (page_size q.count) 0 start (drop start names)
            ++ all_from q (l + 1) (drop (l + 1) names)
          ≡ all_from q start (drop start names))
full_page q names start l inside last full =
    let (low, high, all) =
      page_from-last q (page_size q.count) 0 start l (drop start names) last (ground arith) in
    let sum : start + (l + 1 - start) ≡ l + 1 = omega (arith, low) in
    let left : drop (l + 1 - start) (drop start names) ≡ drop (l + 1) names =
      drop-drop (l + 1 - start) start names ∙ ap (λ k. drop k names) sum in
    (
      low,
      omega (arith, high, length-drop start names),
      ap (λ xs. page_from q (page_size q.count) 0 start (drop start names) ++ all_from q (l + 1) xs)
            (sym left)
          ∙ all,
    )

append-nil : (page : List ℕ) → page ++ [] ≡ page
append-nil [] = refl
append-nil (i ∷ page) = ap (◌∷◌ i) (append-nil page)

ends_all :
    (q : Query) (names : List Bytes) (l : ℕ) (page : List ℕ)
    → l + 1 ≡ length names
    → page ≡ page ++ all_from q (l + 1) (drop (l + 1) names)
unfolding all_from
ends_all q names l page at_end =
    rw (drop-all (l + 1) names (omega (arith, at_end))) (sym (append-nil page))

close_page-EndsRight :
    (now : ℤ) (q : Query) (names : List Bytes) (start : ℕ) (rt : ResumeTable)
    → Ascending names
    → start ≤ length names
    → EndsRight now q names start rt.ttl_ms
        (close_page now q names (page_from q (page_size q.count) 0 start (drop start names)) rt)
unfolding close_page alloc gc
close_page-EndsRight now q names start rt sorted inside =
    let page = page_from q (page_size q.count) 0 start (drop start names) in
    elim (Option-cases (last_of page)) [
      | inl none_found ↦
          rw (none_found, close_page)
            (inl (
              refl,
              page_from-short q (page_size q.count) 0 start (drop start names)
                  (omega (arith, last_of-none page none_found, page_size-pos q.count)),
            ))
      | inr (l, last) ↦ elim (Bool-cases (ltb (length page) (page_size q.count))) [
        | inl short ↦
            rw (last, close_page)
              (rw short (
                inl (
                  refl,
                  page_from-short q (page_size q.count) 0 start (drop start names) (ground arith),
                )))
        | inr full ↦ elim (Bool-cases (l + 1 == length names)) [
          | inl at_end ↦
              rw (last, close_page)
                (rw full (
                  rw at_end (
                    inl (
                      refl,
                      ends_all q names l page (ground arith)
                          ∙ (full_page q names start l inside last full).2,
                    ))))
          | inr more ↦
              rw (last, close_page)
                (rw full (
                  rw more (
                    let goes = full_page q names start l inside last full in
                    inr (
                      i64-pos (token_after rt.next) (token_after-pos rt.next),
                      refl,
                      (
                        l,
                        goes.0,
                        goes.1,
                        goes.2,
                        λ now' fresh.
                            start_of-alloc now now' q
                              (record {
                                db = q.db;
                                scope_key = q.key;
                                partition = 0;
                                last = get_or names l [];
                                expires_ms = pos 0;
                              })
                              names rt refl refl fresh
                            ∙ after_last-get_or names l sorted goes.1,
                      ),
                    ))))
        ]
      ]
    ]

pub scan_page-EndsRight :
    (now : ℤ) (q : Query) (cursor : ℤ) (names : List Bytes) (rt : ResumeTable)
    → Ascending names
    → (start_of now q cursor names rt).0 ≤ length names
    → EndsRight now q names
        (start_of now q cursor names rt).0
        rt.ttl_ms
        (scan_page now q cursor names rt)
unfolding scan_page
scan_page-EndsRight now q cursor names rt sorted inside =
    subst
      (λ ttl.
        EndsRight now q names (start_of now q cursor names rt).0 ttl
          (scan_page now q cursor names rt))
      (start_of-freed now q cursor names rt)
      (close_page-EndsRight now q names (start_of now q cursor names rt).0
        (freed cursor (start_of now q cursor names rt).1) sorted inside)
