-- ===== src/Perf/Bounds/Columns.antt =====
-- How long the column heads of ututna/perf.c can be.
use Prim.Native.String.{String}
use rebench.Base.{ℕ, ◌≤◌, inl, inr, ◌∷◌, ◌++◌, arith, ◌==◌, Bool-cases, length, length-append}
use rebench.Perf.Config.{preset_columns, counter_name, name_of_option}
use rebench.Perf.Text.{codes, pad, hex, length-pad_le, length-hex}

pub preset_columns-le :
    (a b c : String)
    → length (codes a) ≤ 12
    → length (codes b) ≤ 12
    → length (codes c) ≤ 5
    → length (preset_columns a b c) ≤ 32
unfolding preset_columns
preset_columns-le a b c ha hb hc = omega (
  arith,
  length-append (pad 12 (codes a)) ((0x20 ∷ pad 12 (codes b)) ++ (0x20 ∷ pad 5 (codes c))),
  length-append (pad 12 (codes b)) (0x20 ∷ pad 5 (codes c)),
  length-pad_le 12 12 (codes a) ha (omega arith),
  length-pad_le 12 12 (codes b) hb (omega arith),
  length-pad_le 5 5 (codes c) hc (omega arith),
)

name_of_option-le : (type : ℕ) → length (codes (name_of_option type)) ≤ 5
name_of_option-le type = elim (Bool-cases (type == b'h')) [
  | inl hw ↦ rw hw (omega arith)
  | inr not_hw ↦ elim (Bool-cases (type == b'c')) [
    | inl cache ↦ rw (not_hw, cache) (omega arith)
    | inr not_cache ↦ rw (not_hw, not_cache) (omega arith)
  ]
]

-- The text that goes to `name[20]`, with its NUL, fits.
pub counter_name-le : (type event : ℕ) → length (counter_name type event) ≤ 18
unfolding counter_name
counter_name-le type event = omega (
  arith,
  name_of_option-le type,
  length-append (codes (name_of_option type)) (codes "(0x" ++ (hex event ++ codes ")")),
  length-append (hex event) (codes ")"),
  length-hex event,
)
