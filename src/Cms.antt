-- ===== src/Cms.antt =====
-- crdtstore/cms.go: the parameters of a count-min sketch and the cells of its matrix that an item
-- hits. The two hashes of the item are arguments.
pub mod Cells
use redgeo.Base.{
  Bytes, be, un_be, ℤ, pos_part, ltz, pos, length, take, drop, leb, ◌==◌, if◌then◌else◌, ℕ, zero,
  suc, ◌+◌, ◌*◌, ◌%◌, ◌^◌, Bool, not, ◌&&◌, Option, none, some, List, [], ◌∷◌, ◌++◌, u32_mod,
  u64_mod, u64,
}

abbrev pub cms_max_dim : ℕ
cms_max_dim = 2 ^ 31

abbrev pub cms_max_cells : ℕ
cms_max_cells = 2 ^ 36

pub record CmsParams : Type 0 where
  pub width : ℤ
  pub depth : ℤ

-- encode: each dimension as a uint32
unfoldable pub encode : CmsParams → Bytes
encode p = be 4 (u64 p.width % u32_mod) ++ be 4 (u64 p.depth % u32_mod)

-- decodeCMSParams
unfoldable pub decode : Bytes → Option CmsParams
decode b =
    if length b == 8
    then some (record { width = pos (un_be 0 (take 4 b)); depth = pos (un_be 0 (drop 4 b)) })
    else none

-- validate; the product is that of two checked dimensions, which does not overflow
unfoldable pub validate : CmsParams → Bool
validate p =
    not (ltz p.width (pos 1))
    && not (ltz p.depth (pos 1))
    && not (ltz (pos cms_max_dim) p.width)
    && not (ltz (pos (2 ^ 16)) p.depth)
    && leb (pos_part p.width * pos_part p.depth) cms_max_cells

-- cells, of row `r` on, for the `left` rows up to the last; the arithmetic is that of uint64
unfoldable pub cells_from : ℕ → ℕ → ℕ → ℕ → ℕ → List ℕ
cells_from zero r w h1 h2 = []
cells_from (suc left) r w h1 h2 =
    ((r * w) % u64_mod + (h1 + r * h2 % u64_mod) % u64_mod % w) % u64_mod
    ∷ cells_from left (r + 1) w h1 h2

unfoldable pub cells : ℕ → ℕ → CmsParams → List ℕ
unfolding cells_from
cells h1 h2 p = cells_from (pos_part p.depth) 0 (u64 p.width) h1 h2
