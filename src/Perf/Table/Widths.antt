-- ===== src/Perf/Table/Widths.antt =====
-- How many characters the columns of `perf_print` of ututna/perf.c take at least, read off the formats
-- that it prints.
use rebench.Base.{
  ℕ, zero, suc, ◌+◌, ◌*◌, ◌-◌, ◌≤◌, ◌≡◌, refl, ◌∙◌, inl, inr, List, [], ◌∷◌, ◌++◌, arith, leb, ◌==◌,
  ◌&&◌, ◌||◌, Bool, if◌then◌else◌, Bool-cases, length, get_or,
}
use rebench.Os.{Event, print}
use rebench.Os.Double.{Double}
use rebench.Perf.Text.{codes}
use rebench.Perf.State.{Perf}
use rebench.Perf.Print.{column, columns}
use rebench.Perf.Table.Heads.{widths, first, row_width}

-- Where a reader of a format is: outside of a conversion, in its least width, or in its precision.
pub data Place : Type 0 where
  outside : Place
  in_width in_precision : (width : ℕ) → Place

abbrev pub is_digit : ℕ → Bool
is_digit c = leb b'0' c && leb c b'9'

abbrev pub next : Place → ℕ → Place
next outside c = if c == b'%' then in_width 0 else outside
next (in_width w) c =
    if is_digit c
    then in_width (10 * w + (c - b'0'))
    else if c == b'l'
    then in_width w
    else if c == b'.'
    then in_precision w
    else outside
next (in_precision w) c = if is_digit c || c == b'l' then in_precision w else outside

-- The characters that are sure to be printed once this one is read.
abbrev pub printed : Place → ℕ → ℕ
printed outside c = if c == b'%' then 0 else 1
printed (in_width w) c = if is_digit c || (c == b'l' || c == b'.') then 0 else w
printed (in_precision w) c = if is_digit c || c == b'l' then 0 else w

abbrev pub read_format : Place → List ℕ → ℕ
read_format place [] = 0
read_format place (c ∷ cs) = printed place c + read_format (next place c) cs

-- The least number of characters that a format prints.
abbrev pub least_width : List ℕ → ℕ
least_width format = read_format outside format

abbrev pub event_width : {D : Type 0} → Event D → ℕ
event_width (print format args) = least_width (codes format)
event_width e = 0

-- The same of what is printed one after the other.
abbrev pub printed_width : {D : Type 0} → List (Event D) → ℕ
printed_width [] = 0
printed_width (e ∷ es) = event_width e + printed_width es

pub printed_width-append :
    {D : Type 0} (es fs : List (Event D))
    → printed_width (es ++ fs) ≡ printed_width es + printed_width fs
printed_width-append [] fs = omega arith
printed_width-append (e ∷ es) fs = omega (arith, printed_width-append es fs)

-- The width of the column of counter `i`, and of `left` counters from `i` on.
abbrev column_width : List ℕ → ℕ → ℕ
column_width rs i = 13 + (if get_or rs i 0 == 0 then 0 else 6)

abbrev widths_from : List ℕ → (left i : ℕ) → ℕ
widths_from rs zero i = 0
widths_from rs (suc left) i = column_width rs i + widths_from rs left (i + 1)

module _ {D : Type 0} ⦃d : Double D⦄ where
  printed_width-column : (p : Perf D) (i : ℕ) → printed_width (column p i) ≡ column_width p.ratios i
  printed_width-column p i = elim (Bool-cases (get_or p.ratios i 0 == 0)) [
    | inl plain ↦ rw plain refl
    | inr scaled ↦ rw scaled refl
  ]

  printed_width-columns :
      (p : Perf D) (left i : ℕ) → printed_width (columns p left i) ≡ widths_from p.ratios left i
  unfolding columns
  printed_width-columns p zero i = refl
  printed_width-columns p (suc left) i =
      printed_width-append (column p i) (columns p left (i + 1))
      ∙ omega (arith, printed_width-column p i, printed_width-columns p left (i + 1))

get_or-later : (r : ℕ) (rs : List ℕ) (i : ℕ) → get_or (r ∷ rs) (i + 1) 0 ≡ get_or rs i 0
get_or-later r rs i = let same : i + 1 ≡ suc i = omega arith in rw same refl

widths_from-later :
    (r : ℕ) (rs : List ℕ) (left i : ℕ) → widths_from (r ∷ rs) left (i + 1) ≡ widths_from rs left i
widths_from-later r rs zero i = refl
widths_from-later r rs (suc left) i =
    rw (get_or-later r rs i, widths_from-later r rs left (i + 1)) refl

widths_from-first : (rs : List ℕ) (n : ℕ) → n ≤ length rs → widths_from rs n 0 ≡ widths (first n rs)
widths_from-first rs zero h = refl
widths_from-first [] (suc n) h = absurd (omega arith)
widths_from-first (r ∷ rs) (suc n) h =
    omega (arith, widths_from-later r rs n 0, widths_from-first rs n (omega arith))

-- The columns of all counters take the width of the row.
pub printed_width-row :
    {D : Type 0} ⦃d : Double D⦄ (p : Perf D)
    → p.n_counters ≤ length p.ratios
    → printed_width (columns p p.n_counters 0) ≡ row_width p
printed_width-row p h =
    printed_width-columns p p.n_counters 0 ∙ widths_from-first p.ratios p.n_counters h
