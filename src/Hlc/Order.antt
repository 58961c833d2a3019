-- ===== src/Hlc/Order.antt =====
-- Stamps are totally ordered.
use redgeo.Base.{
  ℤ, compare_ℤ, ℤ-IsOrder, ℕ-IsOrder, lex, lex-IsOrder, IsOrder, ℕ, compare, ◌≡◌, arith,
}
use redgeo.Hlc.{Stamp, compare_stamp}

abbrev pair : Stamp → ℤ × ℕ
pair a = (a.wall_ms, a.logical)

compare_stamp-lex : (a b : Stamp) → compare_stamp a b ≡ lex compare_ℤ compare (pair a) (pair b)
unfolding compare_stamp
compare_stamp-lex a b = ground arith

pair-IsOrder : IsOrder (lex compare_ℤ compare)
pair-IsOrder = lex-IsOrder compare_ℤ compare ℤ-IsOrder ℕ-IsOrder

-- Compare is a total order of the stamps: it answers 0 of equal stamps and of no others, swapping
-- the arguments swaps the signs, and less-than is transitive.
pub compare_stamp-IsOrder : IsOrder compare_stamp
compare_stamp-IsOrder = record {
  self = λ a. rw compare_stamp-lex (pair-IsOrder.self (pair a));
  same = λ a b h.
      let e : pair a ≡ pair b = pair-IsOrder.same (pair a) (pair b) (rw (← compare_stamp-lex) h) in
      cc e;
  flip_gt = λ a b h.
      rw compare_stamp-lex (pair-IsOrder.flip_gt (pair a) (pair b) (rw (← compare_stamp-lex) h));
  flip_lt = λ a b h.
      rw compare_stamp-lex (pair-IsOrder.flip_lt (pair a) (pair b) (rw (← compare_stamp-lex) h));
  chain = λ a b c h k. rw compare_stamp-lex (
      pair-IsOrder.chain (pair a) (pair b) (pair c) (rw (← compare_stamp-lex) h)
        (rw (← compare_stamp-lex) k));
}
