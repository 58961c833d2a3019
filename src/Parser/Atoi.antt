-- ===== src/Parser/Atoi.antt =====
-- strconv.Atoi as the parsers use it: the value that it returns, also beside an error, and whether
-- it parsed.
use redgeo.Base.{
  Bytes, ℤ, ◌-ℤ◌, pos, negsuc, ltb, leb, ◌==◌, if◌then◌else◌, ℕ, ◌+◌, ◌-◌, ◌*◌, ◌^◌, Bool, true,
  false, ◌&&◌, Option, none, some, [], ◌∷◌, u64_mod,
}

unfoldable pub is_digit : ℕ → Bool
is_digit c = leb b'0' c && leb c b'9'

-- `none` is a syntax error; a value of `u64_mod` or more is out of range, and ends the loop.
unfoldable pub scan_digits : ℕ → Bytes → Option ℕ
unfolding is_digit
scan_digits n [] = some n
scan_digits n (c ∷ cs) =
    let n' = n * 10 + (c - b'0') in
    elim (is_digit c) [
      | false ↦ none
      | true ↦ elim (leb u64_mod n') [ true ↦ some n' | false ↦ scan_digits n' cs ]
    ]

in_range : Bool → ℕ → ℤ × Bool
in_range false n = if ltb n (2 ^ 63) then (pos n, true) else (pos (2 ^ 63 - 1), false)
in_range true n = if leb n (2 ^ 63) then (pos 0 -ℤ pos n, true) else (negsuc (2 ^ 63 - 1), false)

unfoldable pub unsigned : Bool → Bytes → ℤ × Bool
unfolding in_range scan_digits
unsigned neg [] = (pos 0, false)
unsigned neg (c ∷ cs) = elim (scan_digits 0 (c ∷ cs)) [
  | none ↦ (pos 0, false)
  | some n ↦ in_range neg n
]

unfoldable pub atoi : Bytes → ℤ × Bool
unfolding unsigned
atoi [] = (pos 0, false)
atoi (c ∷ cs) =
    if c == b'-'
    then unsigned true cs
    else if c == b'+'
    then unsigned false cs
    else unsigned false (c ∷ cs)
