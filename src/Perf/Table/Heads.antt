-- ===== src/Perf/Table/Heads.antt =====
-- The column heads of ututna/perf.c against the columns below them.
use rebench.Base.{
  ℕ, zero, suc, ◌+◌, ◌-◌, ◌≤◌, ◌≡◌, refl, ap, ◌∙◌, none, some, inl, inr, Option, List, [], ◌∷◌,
  ◌++◌, arith, leb, ◌==◌, if◌then◌else◌, Bool-cases, All, length, length-append, length-replicate,
  replicate,
}
use rebench.Perf.Text.{pad}
use rebench.Perf.State.{Perf}
use rebench.Perf.Config.{preset_columns, counter_name}
use rebench.Perf.Table.{
  Group, single, instructions, l1_misses, l2_misses, size, factors, head, preset_of, asked, used,
  all_factors, all_heads, admit, Shows,
}
use rebench.Perf.Table.Lists.{length-all_factors}

-- The characters that `perf_print` prints for counters with these factors: " %12lu" for each, and
-- " %5.2f" where the factor is not 0.
abbrev pub widths : List ℕ → ℕ
widths [] = 0
widths (r ∷ rs) = 13 + (if r == 0 then 0 else 6) + widths rs

-- The elements before the given index.
abbrev pub first : ℕ → List ℕ → List ℕ
first zero rs = []
first (suc n) [] = []
first (suc n) (r ∷ rs) = r ∷ first n rs

abbrev pub row_width : {D : Type 0} → Perf D → ℕ
row_width p = widths (first p.n_counters p.ratios)

-- The name of a counter fits its column.
abbrev pub IsShort : Group → Type 0
IsShort (single type event) = length (counter_name type event) ≤ 12
IsShort instructions = Unit
IsShort l1_misses = Unit
IsShort l2_misses = Unit

length-head_short : (g : Group) → IsShort g → length (head g) ≡ widths (factors g)
unfolding pad preset_columns
length-head_short (single type event) short =
    let l = length (counter_name type event) in
    omega (
      arith,
      short,
      length-append (replicate (12 - l) 0x20) (counter_name type event),
      length-replicate {A = ℕ} (12 - l) 0x20,
    )
length-head_short instructions short = refl
length-head_short l1_misses short = refl
length-head_short l2_misses short = refl

widths-append : (rs ss : List ℕ) → widths (rs ++ ss) ≡ widths rs + widths ss
widths-append [] ss = omega arith
widths-append (r ∷ rs) ss = omega (arith, widths-append rs ss)

first-append : (rs ss : List ℕ) → first (length rs) (rs ++ ss) ≡ rs
first-append [] ss = refl
first-append (r ∷ rs) ss = ap (λ ts. r ∷ ts) (first-append rs ss)

length-all_heads_short :
    (gs : List Group) → All IsShort gs → length (all_heads gs) ≡ widths (all_factors gs)
length-all_heads_short [] short = refl
length-all_heads_short (g ∷ gs) (s, ss) = omega (
  arith,
  length-append (all_heads gs) (head g),
  length-all_heads_short gs ss,
  length-head_short g s,
  widths-append (all_factors gs) (factors g),
)

pub length-headers :
    {D : Type 0} (gs : List Group) (p : Perf D)
    → Shows gs p
    → All IsShort gs
    → length p.headers ≡ row_width p
length-headers gs p h short =
    let n : p.n_counters ≡ length (all_factors gs) = h.counters ∙ length-used gs in
    ap length h.headers ∙ length-all_heads_short gs short ∙ ap widths (first-ratios n)
  where
    length-used : (gs : List Group) → used gs ≡ length (all_factors gs)
    length-used hs = omega (arith, length-all_factors hs)

    first-ratios :
        p.n_counters ≡ length (all_factors gs) → all_factors gs ≡ first p.n_counters p.ratios
    first-ratios e =
        rw (e, h.ratios, first-append (all_factors gs) (replicate (10 - used gs) 0)) refl

-- The same of the group that an option stands for, if there is one.
abbrev IsShortIfAny : Option Group → Type 0
IsShortIfAny none = Unit
IsShortIfAny (some g) = IsShort g

preset_of-IsShort : (event : ℕ) → IsShortIfAny (preset_of event)
preset_of-IsShort event = elim (Bool-cases (event == 0)) [
  | inl e ↦ rw e tt
  | inr e ↦ elim (Bool-cases (event == 1)) [
    | inl f ↦ rw (e, f) tt
    | inr f ↦ elim (Bool-cases (event == 2)) [ inl g ↦ rw (e, f, g) tt | inr g ↦ rw (e, f, g) tt ]
  ]
]

asked-IsShort :
    (type event : ℕ) → length (counter_name type event) ≤ 12 → IsShortIfAny (asked type event)
asked-IsShort type event short = elim (Bool-cases (type == b'i')) [
  | inl e ↦ rw e (preset_of-IsShort event)
  | inr e ↦ rw e short
]

admit-IsShortIfAny :
    (o : Option Group) (gs : List Group)
    → IsShortIfAny o
    → All IsShort gs
    → All IsShort (admit o gs)
admit-IsShortIfAny none gs short hs = hs
admit-IsShortIfAny (some g) gs short hs = elim (Bool-cases (leb (used gs + size g) 10)) [
  | inl e ↦ rw e (short, hs)
  | inr e ↦ rw e hs
]

pub admit-IsShort :
    (type event : ℕ) (gs : List Group)
    → length (counter_name type event) ≤ 12
    → All IsShort gs
    → All IsShort (admit (asked type event) gs)
admit-IsShort type event gs short =
    admit-IsShortIfAny (asked type event) gs (asked-IsShort type event short)
