-- ===== src/SetCommand/Options.antt =====
-- Which options SET accepts.
use redgeo.Base.{
  Bytes, compare_bytes, bytes_eq, bytes_eq_iff, ascii, ℤ, lez, pos, if◌then◌else◌, ◌≡◌, refl, Bool,
  true, false, none, List, [], ◌∷◌, arith,
}
use redgeo.Parser.{
  Outcome, pass, fire, fail, invalid_int, syntax_error, equal_fold, to_lower, string, int, flag,
  named, one_of, one_of_loop, named_loop,
}
use redgeo.Parser.Atoi.{atoi}
use redgeo.Parser.Pipeline.{try_parsers, rounds, run}
use redgeo.SetCommand.{
  Draft, Parsed, nx, xx, ttl_parsers, blank, parse_set, parsed, refused, parse_error,
  invalid_expire_time, with_expiry, times_i64,
}

fold_excludes :
    (a n m : Bytes)
    → equal_fold a n ≡ true
    → bytes_eq (to_lower n) (to_lower m) ≡ false
    → equal_fold a m ≡ false
unfolding equal_fold
fold_excludes a n m h k = ground (arith, bytes_eq_iff (to_lower a) (to_lower n))

abbrev named_draft : Bytes → Bytes → Draft
named_draft k v = record blank { key = k; value = v }

-- Two option names of SET that differ.
abbrev Differ : Bytes → Bytes → Type 0
Differ n m = bytes_eq (to_lower n) (to_lower m) ≡ false

nx_differs :
    Differ (ascii "nx") (ascii "get")
    × Differ (ascii "nx") (ascii "ex")
    × Differ (ascii "nx") (ascii "px")
    × Differ (ascii "nx") (ascii "exat")
    × Differ (ascii "nx") (ascii "pxat")
    × Differ (ascii "nx") (ascii "keepttl")
unfolding to_lower bytes_eq compare_bytes
nx_differs = (refl, refl, refl, refl, refl, refl)

xx-nx : Differ (ascii "xx") (ascii "nx")
unfolding to_lower bytes_eq compare_bytes
xx-nx = refl

ex_differs :
    Differ (ascii "ex") (ascii "nx")
    × Differ (ascii "ex") (ascii "xx")
    × Differ (ascii "ex") (ascii "get")
unfolding to_lower bytes_eq compare_bytes
ex_differs = (refl, refl, refl)

-- The parsers of SET on one word.
flag_passes :
    (name a : Bytes) (set : Draft → Draft) (s : Draft) (args : List Bytes)
    → equal_fold a name ≡ false
    → flag name set s (a ∷ args) ≡ pass s (a ∷ args)
unfolding flag
flag_passes name a set s args h = rw h

exists_takes_xx :
    (a : Bytes) (s : Draft) (b : Bytes)
    → equal_fold a (ascii "xx") ≡ true
    → one_of (nx ∷ xx ∷ []) s (a ∷ b ∷ []) ≡ fire (record s { if_xx = true }) (b ∷ [])
unfolding one_of one_of_loop flag
exists_takes_xx a s b h = ground (arith, fold_excludes a (ascii "xx") (ascii "nx") h xx-nx)

exists_passes :
    (a : Bytes) (s : Draft) (args : List Bytes)
    → equal_fold a (ascii "nx") ≡ false
    → equal_fold a (ascii "xx") ≡ false
    → one_of (nx ∷ xx ∷ []) s (a ∷ args) ≡ pass s (a ∷ args)
unfolding one_of one_of_loop flag
exists_passes a s args h k = ground arith

ttl_passes_nx :
    (a : Bytes) (s : Draft) (args : List Bytes)
    → equal_fold a (ascii "nx") ≡ true
    → one_of ttl_parsers s (a ∷ args) ≡ pass s (a ∷ args)
unfolding one_of one_of_loop flag named
ttl_passes_nx a s args h = ground (
  arith,
  fold_excludes a (ascii "nx") (ascii "ex") h nx_differs.1,
  fold_excludes a (ascii "nx") (ascii "px") h nx_differs.2,
  fold_excludes a (ascii "nx") (ascii "exat") h nx_differs.3,
  fold_excludes a (ascii "nx") (ascii "pxat") h nx_differs.4,
  fold_excludes a (ascii "nx") (ascii "keepttl") h nx_differs.5,
)

-- What EX makes of the word that follows it.
ex_taken : Draft → Bytes → ℤ × Bool → Outcome Draft
ex_taken s b (n, true) = fire (record s { ttl_sec = n }) []
ex_taken s b (n, false) = fail invalid_int (record s { ttl_sec = n }) (b ∷ [])

ttl_takes_ex :
    (a : Bytes) (s : Draft) (b : Bytes)
    → equal_fold a (ascii "ex") ≡ true
    → one_of ttl_parsers s (a ∷ b ∷ []) ≡ ex_taken s b (atoi b)
unfolding one_of one_of_loop flag named named_loop int ex_taken
ttl_takes_ex a s b h = ground arith

nx_then_xx :
    (key value a b : Bytes)
    → equal_fold a (ascii "nx") ≡ true
    → equal_fold b (ascii "xx") ≡ true
    → parse_set (key ∷ value ∷ a ∷ b ∷ []) ≡ refused (parse_error syntax_error)
unfolding parse_set run rounds try_parsers string one_of one_of_loop flag
nx_then_xx key value a b h k = ground arith

xx_then_nx :
    (key value a b : Bytes)
    → equal_fold a (ascii "xx") ≡ true
    → equal_fold b (ascii "nx") ≡ true
    → parse_set (key ∷ value ∷ a ∷ b ∷ []) ≡ refused (parse_error syntax_error)
unfolding parse_set run rounds try_parsers string
xx_then_nx key value a b h k =
    let d = named_draft key value in
    let e = record d { if_xx = true } in
    ground (
      arith,
      exists_takes_xx a d b h,
      flag_passes (ascii "get") b (λ d. record d { get = true }) e []
          (fold_excludes b (ascii "nx") (ascii "get") k nx_differs.0),
      ttl_passes_nx b e [] k,
    )

-- SET refuses NX together with XX, in either order and in any case of letters.
pub parse_set_nx_xx :
    (key value a b : Bytes)
    → equal_fold a (ascii "nx") ≡ true
    → equal_fold b (ascii "xx") ≡ true
    → (parse_set (key ∷ value ∷ a ∷ b ∷ []) ≡ refused (parse_error syntax_error))
      × (parse_set (key ∷ value ∷ b ∷ a ∷ []) ≡ refused (parse_error syntax_error))
parse_set_nx_xx key value a b h k = (nx_then_xx key value a b h k, xx_then_nx key value b a k h)

-- SET with the one option EX, by what the number that follows parses to.
abbrev pub ex_outcome : Bytes → Bytes → ℤ × Bool → Parsed
ex_outcome key value (n, false) = refused (parse_error invalid_int)
ex_outcome key value (n, true) =
    let d : Draft = record blank { key = key; value = value; ttl_sec = n } in
    if lez n (pos 0)
    then parsed (record { draft = d; ttl = pos 0; at = none })
    else if lez (pos 0) (times_i64 n 1000000000)
    then parsed (record { draft = d; ttl = times_i64 n 1000000000; at = none })
    else refused invalid_expire_time

-- SET key value EX n, with EX in any case of letters: where n is no integer it is refused. Where n
-- is zero or negative the command is accepted, and sets no expiry at all. Where n is positive the
-- time to live is n seconds, in nanoseconds as an int64 that wraps around: it is refused if that
-- comes out negative, and accepted as it is if not.
pub parse_set_ex :
    (key value a b : Bytes)
    → equal_fold a (ascii "ex") ≡ true
    → parse_set (key ∷ value ∷ a ∷ b ∷ []) ≡ ex_outcome key value (atoi b)
unfolding parse_set run rounds try_parsers string ex_taken with_expiry
parse_set_ex key value a b h =
    let d = named_draft key value in
    let no_nx = fold_excludes a (ascii "ex") (ascii "nx") h ex_differs.0 in
    let no_xx = fold_excludes a (ascii "ex") (ascii "xx") h ex_differs.1 in
    let no_get = fold_excludes a (ascii "ex") (ascii "get") h ex_differs.2 in
    ground (
      arith,
      exists_passes a d (b ∷ []) no_nx no_xx,
      flag_passes (ascii "get") a (λ d. record d { get = true }) d (b ∷ []) no_get,
      ttl_takes_ex a d b h,
    )
