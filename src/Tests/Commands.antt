-- ===== src/Tests/Commands.antt =====
-- The argument parsers, SET, and the bit operations.
use redgeo.Base.{
  Bytes, IsByte, compare_bytes, bytes_eq, ascii, ◌+ℤ◌, ◌-ℤ◌, pos, negsuc, length, get_elem?, All, ℕ,
  ◌≤◌, ◌<◌, ◌≡◌, refl, true, false, none, some, List, [], ◌∷◌, arith,
}
use redgeo.Parser.{Parser, flag, equal_fold, to_lower, lower}
use redgeo.Parser.Atoi.{atoi, unsigned, scan_digits, is_digit}
use redgeo.Parser.Behaved.{AllBehaved, flag-Behaved}
use redgeo.Parser.Run.{NoneTakes}
use redgeo.SetCommand.{Draft, blank, nx, xx, parse_set, parsed}
use redgeo.SetCommand.Options.{parse_set_ex}
use redgeo.Bitops.{Op, bit_range, bit_pos_range, bitop, longest}
use redgeo.Bitops.Position.{IsFirst, bit_pos_range-IsFirst}
use redgeo.Bitops.Digits.{digit}
use redgeo.Bitops.Operation.{bitop_bytes, column, of_column}

abbrev flags : List (Parser Draft)
flags = nx ∷ xx ∷ []

flags-AllBehaved : AllBehaved flags
flags-AllBehaved = (
  flag-Behaved (ascii "nx") (λ d. record d { if_nx = true }),
  (flag-Behaved (ascii "xx") (λ d. record d { if_xx = true }), tt),
)

none_takes : NoneTakes flags blank (ascii "zz" ∷ [])
unfolding flag equal_fold to_lower lower bytes_eq compare_bytes
none_takes = (refl, refl, (refl, refl, tt))

folds_nx : equal_fold (ascii "Nx") (ascii "nx") ≡ true
unfolding equal_fold to_lower lower bytes_eq compare_bytes
folds_nx = refl

folds_xx : equal_fold (ascii "XX") (ascii "xx") ≡ true
unfolding equal_fold to_lower lower bytes_eq compare_bytes
folds_xx = refl

folds_ex : equal_fold (ascii "EX") (ascii "ex") ≡ true
unfolding equal_fold to_lower lower bytes_eq compare_bytes
folds_ex = refl

parse_set_ex_example :
    parse_set (ascii "k" ∷ ascii "v" ∷ ascii "EX" ∷ ascii "-5" ∷ [])
    ≡ parsed (record {
      draft = record blank { key = ascii "k"; value = ascii "v"; ttl_sec = negsuc 4 };
      ttl = pos 0;
      at = none;
    })
unfolding atoi unsigned scan_digits is_digit ◌-ℤ◌
parse_set_ex_example = parse_set_ex (ascii "k") (ascii "v") (ascii "EX") (ascii "-5") folds_ex

bit_pos_range-IsFirst_example :
    IsFirst (255 ∷ 240 ∷ []) false 0 15 (bit_pos_range (255 ∷ 240 ∷ []) false 0 15)
bit_pos_range-IsFirst_example = bit_pos_range-IsFirst (255 ∷ 240 ∷ []) false 0 15

ranges : bit_range 10 (negsuc 2) (pos 99) true true false ≡ (pos 7, pos 9, true)
unfolding bit_range ◌-ℤ◌ ◌+ℤ◌
ranges = refl

abbrev operands : List Bytes
operands = (255 ∷ 15 ∷ []) ∷ (240 ∷ []) ∷ []

at_one : 1 < longest operands
unfolding longest
at_one = omega arith

operands-IsByte : All (All IsByte) operands
operands-IsByte = ((omega arith, (omega arith, tt)), ((omega arith, tt), tt))

bitop_bytes_example :
    All (λ t. length t ≤ length (bitop Op.xor operands)) operands
    × (length (bitop Op.xor operands) ≡ longest operands)
    × (b : ℕ) × (get_elem? (bitop Op.xor operands) 1 ≡ some b)
    × (digit 3 b ≡ of_column Op.xor (column operands 1 3))
bitop_bytes_example =
    bitop_bytes Op.xor (255 ∷ 15 ∷ []) ((240 ∷ []) ∷ []) 1 3 operands-IsByte at_one (omega arith)
