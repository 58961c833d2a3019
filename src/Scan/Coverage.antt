-- ===== src/Scan/Coverage.antt =====
-- crdtstore/scan.go: a whole scan, page after page.
use mathlib.Core.Path.{subst}
use redgeo.Base.Maps.{nat_key}
use redgeo.Base.{
  Bytes, ℤ, lez, pos, negsuc, length, drop, ℕ, zero, suc, ◌+◌, ◌-◌, ◌≤◌, ◌<◌, ◌≡◌, refl, sym, ap,
  ◌∙◌, ◌≢◌, inl, inr, Bool, true, false, List, [], ◌∷◌, ◌++◌, arith, bytes_key,
}
use redgeo.Scan.{Query, ResumeTable, expiry, start_of, scan_page, joined, run_scan}
use redgeo.Scan.Paging.{all_from}
use redgeo.Scan.Cursor.{Ascending, Timely}
use redgeo.Scan.Ending.{EndsRight, scan_page-EndsRight}

joined-more :
    (c : ℤ) (found : List ℕ) (rest : List ℕ × Bool)
    → c ≢ pos 0
    → joined c found rest ≡ (found ++ rest.0, rest.1)
unfolding joined
joined-more (pos zero) found rest h = absurd (h refl)
joined-more (pos (suc n)) found rest h = refl
joined-more (negsuc n) found rest h = refl

joined-end :
    (c : ℤ) (found : List ℕ) (rest : List ℕ × Bool)
    → c ≡ pos 0
    → joined c found rest ≡ (found, true)
unfolding joined
joined-end c found rest h = rw h refl

first_at : List ℤ → ℤ
first_at [] = pos 0
first_at (now ∷ times) = now

next_time :
    (now ttl : ℤ) (times : List ℤ)
    → Timely ttl (now ∷ times)
    → 0 < length times
    → (lez (expiry now ttl) (first_at times) ≡ false) × Timely ttl times
unfolding first_at
next_time now ttl [] h more = absurd (omega (arith, more))
next_time now ttl (now' ∷ times) h more = h

run_from :
    (times : List ℤ) (q : Query) (cursor : ℤ) (names : List Bytes) (start : ℕ) (rt : ResumeTable)
    → Ascending names
    → Timely rt.ttl_ms times
    → start ≤ length names
    → length names - start < length times
    → (start_of (first_at times) q cursor names rt).0 ≡ start
    → run_scan times q cursor names rt ≡ (all_from q start (drop start names), true)
unfolding run_scan first_at
run_from [] q cursor names start rt sorted timely inside enough starts =
    absurd (omega (arith, enough))
run_from (now ∷ times) q cursor names start rt sorted timely inside enough starts =
    let p = scan_page now q cursor names rt in
    let ends =
      subst (λ s. EndsRight now q names s rt.ttl_ms p) starts
        (scan_page-EndsRight now q cursor names rt sorted (omega (arith, starts, inside))) in
    elim ends [
      | inl (over, all) ↦
          joined-end p.cursor p.found (run_scan times q p.cursor names p.table) over
          ∙ ap (λ xs. (xs, true)) all
      | inr (more, ttl, (l, low, high, all, leads)) ↦
          let next = next_time now rt.ttl_ms times timely (omega (arith, low, high, enough)) in
          let rest =
            run_from times q p.cursor names (l + 1) p.table sorted
              (subst (λ t. Timely t times) (sym ttl) next.1) (omega (arith, high))
              (omega (arith, low, high, enough)) (leads (first_at times) next.0) in
          joined-more p.cursor p.found (run_scan times q p.cursor names p.table) more
          ∙ rw rest (ap (λ xs. (xs, true)) all)
    ]

-- A client that scans a collection whose names stand still and ascend gets the index of every name
-- that passes the pattern, once and in order, and then the cursor 0, whatever the count: it must
-- call at least once more than there are names, each time before the cursor of the call before
-- has expired.
pub run_scan-all :
    (times : List ℤ) (q : Query) (names : List Bytes) (rt : ResumeTable)
    → Ascending names
    → Timely rt.ttl_ms times
    → length names < length times
    → run_scan times q (pos 0) names rt ≡ (all_from q 0 names, true)
unfolding start_of
run_scan-all times q names rt sorted timely enough =
    run_from times q (pos 0) names 0 rt sorted timely (omega arith) (omega (arith, enough)) refl
