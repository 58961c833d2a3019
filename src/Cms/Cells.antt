-- ===== src/Cms/Cells.antt =====
-- The cells of a sketch whose parameters are valid, and their encoding.
use redgeo.Base.{
  be, un_be, length-be, un_be-be, ℤ, pos_part, pos, negsuc, length, length-append, take-append,
  drop-append, ℕ, zero, suc, ◌+◌, ◌*◌, ◌%◌, ◌^◌, ◌≤◌, ◌<◌, ◌≡◌, refl, ap, ◌∙◌, ◌≢◌, true, some,
  List, [], ◌∷◌, ◌++◌, arith, u32_mod, u64_mod, u64,
}
use native.Mathlib.Nat.{mod-lt, add-mul, one-mul, mul-le-mul_right, mul_comm, zero-add}
use redgeo.Cms.{CmsParams, encode, decode, validate, cells_from, cells, cms_max_dim, cms_max_cells}

-- The row times the width, and an offset below the width.
at_offset :
    (rw offset w : ℕ)
    → rw + w ≤ cms_max_cells
    → offset < w
    → (rw % u64_mod + offset) % u64_mod ≡ rw + offset
at_offset rw offset w fits small = omega arith

-- Every cell lies in its own row, the rows being numbered from `r`.
abbrev pub InRows : ℕ → ℕ → List ℕ → Type 0
InRows w r [] = Unit
InRows w r (c ∷ cs) = (r * w ≤ c) × (c < (r + 1) * w) × InRows w (r + 1) cs

cells_from-InRows :
    (left r w h1 h2 : ℕ)
    → 0 < w
    → (r + left) * w ≤ cms_max_cells
    → InRows w r (cells_from left r w h1 h2) × (length (cells_from left r w h1 h2) ≡ left)
unfolding cells_from
cells_from-InRows zero r w h1 h2 h fits = (tt, refl)
cells_from-InRows (suc left) r w h1 h2 h fits =
    let offset = (h1 + r * h2 % u64_mod) % u64_mod % w in
    let small : offset < w = mod-lt ((h1 + r * h2 % u64_mod) % u64_mod) h in
    let next : (r + 1) * w ≡ r * w + w = add-mul r 1 w ∙ ap (◌+◌ (r * w)) (one-mul w) in
    let below : (r + 1) * w ≤ (r + suc left) * w = mul-le-mul_right w (omega arith) in
    let row : r * w + w ≤ cms_max_cells = omega (arith, next, below, fits) in
    let is = at_offset (r * w) offset w row small in
    let same : r + 1 + left ≡ r + suc left = omega arith in
    let (rest, count) = cells_from-InRows left (r + 1) w h1 h2 h (rw same fits) in
    ((omega (arith, is), omega (arith, is, small, next), rest), ap suc count)

valid_bounds :
    (w d : ℕ)
    → validate (record { width = pos w; depth = pos d }) ≡ true
    → (0 < w) × (0 < d) × (w ≤ cms_max_dim) × (d ≤ 2 ^ 16) × (w * d ≤ cms_max_cells)
unfolding validate
valid_bounds w d valid = (ground arith, ground arith, ground arith, ground arith, ground arith)

no_depth : (w d : ℕ) → validate (record { width = pos w; depth = negsuc d }) ≢ true
unfolding validate
no_depth w d valid = ground arith

no_width : (w : ℕ) (d : ℤ) → validate (record { width = negsuc w; depth = d }) ≢ true
unfolding validate
no_width w d valid = ground arith

cells_of :
    (h1 h2 : ℕ) (a b : ℤ)
    → validate (record { width = a; depth = b }) ≡ true
    → InRows (pos_part a) 0 (cells h1 h2 (record { width = a; depth = b }))
      × (pos (length (cells h1 h2 (record { width = a; depth = b }))) ≡ b)
unfolding cells
cells_of h1 h2 (pos w) (pos d) valid =
    let (some_width, some_depth, w_fits, d_fits, fits) = valid_bounds w d valid in
    let same : u64 (pos w) ≡ w = omega (arith, w_fits) in
    let area : (0 + d) * w ≤ cms_max_cells = rw (zero-add d) (rw (mul_comm d w) fits) in
    let (rows, count) = cells_from-InRows d 0 w h1 h2 some_width area in
    rw same (rows, ap pos count)
cells_of h1 h2 (pos w) (negsuc d) valid = absurd (no_depth w d valid)
cells_of h1 h2 (negsuc w) d valid = absurd (no_width w d valid)

-- Of valid parameters an item hits one cell of each row, and the cells of two rows are apart: the
-- cell of row r is at least r times the width, and less than r + 1 times.
pub cells-InRows :
    (h1 h2 : ℕ) (p : CmsParams)
    → validate p ≡ true
    → InRows (pos_part p.width) 0 (cells h1 h2 p) × (pos (length (cells h1 h2 p)) ≡ p.depth)
cells-InRows h1 h2 p valid = cells_of h1 h2 p.width p.depth valid

un_be-be_u32 : (n : ℕ) → n ≤ cms_max_dim → un_be 0 (be 4 (u64 (pos n) % u32_mod)) ≡ n
un_be-be_u32 n fits =
    let same : u64 (pos n) % u32_mod ≡ n = omega (arith, fits) in
    rw same (un_be-be 4 n (omega (arith, fits)))

decode_of :
    (a b : ℤ)
    → validate (record { width = a; depth = b }) ≡ true
    → decode (encode (record { width = a; depth = b })) ≡ some (record { width = a; depth = b })
unfolding decode encode
decode_of (pos w) (pos d) valid =
    let (some_width, some_depth, w_fits, d_fits, fits) = valid_bounds w d valid in
    let x = be 4 (u64 (pos w) % u32_mod) in
    let y = be 4 (u64 (pos d) % u32_mod) in
    let four : length x ≡ 4 = length-be 4 (u64 (pos w) % u32_mod) in
    let eight : length (x ++ y) ≡ 8 =
      omega (arith, length-append x y, four, length-be 4 (u64 (pos d) % u32_mod)) in
    rw (
      eight,
      take-append 4 x y four,
      drop-append 4 x y four,
      un_be-be_u32 w w_fits,
      un_be-be_u32 d (omega (arith, d_fits)),
    )
decode_of (pos w) (negsuc d) valid = absurd (no_depth w d valid)
decode_of (negsuc w) d valid = absurd (no_width w d valid)

-- decodeCMSParams reads back the valid parameters that encode wrote.
pub decode_cms-encode : (p : CmsParams) → validate p ≡ true → decode (encode p) ≡ some p
decode_cms-encode p valid = decode_of p.width p.depth valid
