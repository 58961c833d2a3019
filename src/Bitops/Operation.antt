-- ===== src/Bitops/Operation.antt =====
-- BITOP: each byte of the result is the operation on the bytes at its place.
use Prim.Native.Nat.{min, max, differ, bit_and, bit_or, bit_xor}
use redgeo.Base.{
  Bytes, IsByte, length, get_elem?, get_or, All, All-map, ℕ, zero, suc, ◌+◌, ◌-◌, ◌%◌, ◌≤◌, ◌<◌,
  ◌≡◌, refl, sym, ap, ◌∙◌, some, List, [], ◌∷◌, map, arith,
}
use redgeo.Bitops.Digits.{digit, digit-le, digit-and, digit-or, digit-xor, digit-complement}
use mathlib.Core.Path.{subst}
use redgeo.Bitops.{Op, combine, accumulate, bitop, out_bytes, out_byte, longest}

length-out_bytes : (op : Op) (srcs : List Bytes) (n i : ℕ) → length (out_bytes op srcs n i) ≡ n
unfolding out_bytes
length-out_bytes op srcs zero i = refl
length-out_bytes op srcs (suc n) i = ap suc (length-out_bytes op srcs n (i + 1))

get_elem?-out_bytes :
    (op : Op) (srcs : List Bytes) (n i j : ℕ)
    → j < n
    → get_elem? (out_bytes op srcs n i) j ≡ some (out_byte op srcs (i + j))
unfolding out_bytes
get_elem?-out_bytes op srcs zero i j h = absurd (omega arith)
get_elem?-out_bytes op srcs (suc n) i zero h = ap (λ k. some (out_byte op srcs k)) (omega arith)
get_elem?-out_bytes op srcs (suc n) i (suc j) h =
    get_elem?-out_bytes op srcs n (i + 1) j (omega arith)
    ∙ ap (λ k. some (out_byte op srcs k)) (omega arith)

longest-ge : (srcs : List Bytes) → All (λ s. length s ≤ longest srcs) srcs
unfolding longest
longest-ge [] = tt
longest-ge (s ∷ srcs) = (
  ground arith,
  All-map (λ t. length t ≤ longest srcs) (λ t. length t ≤ longest (s ∷ srcs)) (λ t h. ground arith)
      srcs (longest-ge srcs),
)

-- the digits with weight `2 ^ k` of the operands' bytes at `i`, zero past an operand's end
abbrev pub column : List Bytes → ℕ → ℕ → List ℕ
column srcs i k = map (λ s. digit k (get_or s i 0)) srcs

unfoldable pub lowest : List ℕ → ℕ
lowest [] = 1
lowest (d ∷ ds) = min d (lowest ds)

unfoldable pub highest : List ℕ → ℕ
highest [] = 0
highest (d ∷ ds) = max d (highest ds)

unfoldable pub total : List ℕ → ℕ
total [] = 0
total (d ∷ ds) = d + total ds

-- what BITOP makes of one column
unfoldable pub of_column : Op → List ℕ → ℕ
of_column Op.and ds = lowest ds
of_column Op.or ds = highest ds
of_column Op.xor ds = total ds % 2
of_column Op.complement [] = 0
of_column Op.complement (d ∷ ds) = 1 - d

min_assoc : (x y z : ℕ) → min (min x y) z ≡ min x (min y z)
min_assoc x y z = omega arith

max_assoc : (x y z : ℕ) → max (max x y) z ≡ max x (max y z)
max_assoc x y z = omega arith

min_one : (x : ℕ) → x ≤ 1 → min x 1 ≡ x
min_one x h = omega arith

max_zero : (x : ℕ) → max x 0 ≡ x
max_zero x = omega arith

differ_parity : (x y : ℕ) → x ≤ 1 → y ≤ 1 → differ x y ≡ (x + y) % 2
differ_parity zero zero h h' = refl
differ_parity zero (suc zero) h h' = refl
differ_parity (suc zero) zero h h' = refl
differ_parity (suc zero) (suc zero) h h' = refl
differ_parity (suc (suc x)) y h h' = absurd (omega arith)
differ_parity x (suc (suc y)) h h' = absurd (omega arith)

accumulate-and :
    (i k acc : ℕ) (srcs : List Bytes)
    → digit k (accumulate Op.and i acc srcs) ≡ min (digit k acc) (lowest (column srcs i k))
unfolding accumulate combine lowest
accumulate-and i k acc [] = sym (min_one (digit k acc) (digit-le k acc))
accumulate-and i k acc (s ∷ srcs) =
    accumulate-and i k (bit_and acc (get_or s i 0)) srcs
    ∙ (ap (λ d. min d (lowest (column srcs i k))) (digit-and k acc (get_or s i 0))
        ∙ min_assoc (digit k acc) (digit k (get_or s i 0)) (lowest (column srcs i k)))

accumulate-or :
    (i k acc : ℕ) (srcs : List Bytes)
    → digit k (accumulate Op.or i acc srcs) ≡ max (digit k acc) (highest (column srcs i k))
unfolding accumulate combine highest
accumulate-or i k acc [] = sym (max_zero (digit k acc))
accumulate-or i k acc (s ∷ srcs) =
    accumulate-or i k (bit_or acc (get_or s i 0)) srcs
    ∙ (ap (λ d. max d (highest (column srcs i k))) (digit-or k acc (get_or s i 0))
        ∙ max_assoc (digit k acc) (digit k (get_or s i 0)) (highest (column srcs i k)))

accumulate-xor :
    (i k acc : ℕ) (srcs : List Bytes)
    → digit k (accumulate Op.xor i acc srcs) ≡ (digit k acc + total (column srcs i k)) % 2
unfolding accumulate combine total
accumulate-xor i k acc [] = omega (arith, digit-le k acc)
accumulate-xor i k acc (s ∷ srcs) = omega (
  arith,
  accumulate-xor i k (bit_xor acc (get_or s i 0)) srcs,
  digit-xor k acc (get_or s i 0),
  differ_parity (digit k acc) (digit k (get_or s i 0)) (digit-le k acc) (digit-le k (get_or s i 0)),
)

get_or-IsByte : (s : Bytes) (i : ℕ) → All IsByte s → get_or s i 0 < 256
get_or-IsByte [] i h = omega arith
get_or-IsByte (b ∷ s) zero h = h.0
get_or-IsByte (b ∷ s) (suc i) h = get_or-IsByte s i h.1

digit-out_byte :
    (op : Op) (s : Bytes) (srcs : List Bytes) (i k : ℕ)
    → All IsByte s
    → k < 8
    → digit k (out_byte op (s ∷ srcs) i) ≡ of_column op (column (s ∷ srcs) i k)
unfolding out_byte of_column lowest highest total
digit-out_byte Op.and s srcs i k h h' = accumulate-and i k (get_or s i 0) srcs
digit-out_byte Op.or s srcs i k h h' = accumulate-or i k (get_or s i 0) srcs
digit-out_byte Op.xor s srcs i k h h' = accumulate-xor i k (get_or s i 0) srcs
digit-out_byte Op.complement s srcs i k h h' =
    digit-complement 8 k (get_or s i 0) (get_or-IsByte s i h) h'

-- The result of BITOP on one or more operands, of bytes, has no operand longer than it, and in every
-- byte of it each of the eight binary digits is, of the operands' digits at that place, a short
-- operand counting as padded with zeros: the lowest for AND, the highest for OR, the parity of their
-- sum for XOR, and 1 minus the first operand's for NOT.
pub bitop_bytes :
    (op : Op) (s : Bytes) (srcs : List Bytes) (i k : ℕ)
    → All (All IsByte) (s ∷ srcs)
    → i < longest (s ∷ srcs)
    → k < 8
    → All (λ t. length t ≤ length (bitop op (s ∷ srcs))) (s ∷ srcs)
      × (length (bitop op (s ∷ srcs)) ≡ longest (s ∷ srcs))
      × (b : ℕ) × (get_elem? (bitop op (s ∷ srcs)) i ≡ some b)
      × (digit k b ≡ of_column op (column (s ∷ srcs) i k))
unfolding bitop
bitop_bytes op s srcs i k bytes h h' =
    let all = s ∷ srcs in
    let n : longest all ≡ length (out_bytes op all (longest all) 0) =
      sym (length-out_bytes op all (longest all) 0) in
    (
      subst (λ m. All (λ (t : Bytes). length t ≤ m) all) n (longest-ge all),
      sym n,
      out_byte op all (0 + i),
      get_elem?-out_bytes op all (longest all) 0 i h,
      ap (λ j. digit k (out_byte op all j)) (omega arith) ∙ digit-out_byte op s srcs i k bytes.0 h',
    )
