-- ===== src/Perf/Table/Lists.antt =====
-- The lists that ututna/perf.c builds while it is configured, against those of a table.
use rebench.Base.{
  ℕ, suc, ◌*◌, ◌≤◌, ◌≡◌, refl, ap, List, [], ◌∷◌, ◌++◌, arith, length, length-append, replicate,
  set,
}
use rebench.Perf.Text.{length-pad_le}
use rebench.Perf.Config.{counter_name}
use rebench.Perf.Bounds.Columns.{counter_name-le, preset_columns-le}
use rebench.Perf.Table.{
  Group, single, instructions, l1_misses, l2_misses, size, factors, head, used, all_factors,
  all_heads,
}

length-factors : (g : Group) → length (factors g) ≡ size g
length-factors (single type event) = refl
length-factors instructions = refl
length-factors l1_misses = refl
length-factors l2_misses = refl

pub length-all_factors : (gs : List Group) → length (all_factors gs) ≡ used gs
length-all_factors [] = refl
length-all_factors (g ∷ gs) =
    omega
      (arith, length-append (all_factors gs) (factors g), length-all_factors gs, length-factors g)

pub length-head : (g : Group) → length (head g) ≤ 19 * size g
length-head (single type event) = omega (
  arith,
  length-pad_le 12 18 (counter_name type event) (counter_name-le type event) (omega arith),
)
length-head instructions =
    omega
      (arith, preset_columns-le "RETIRED" "CYCLES" "IPC" (omega arith) (omega arith) (omega arith))
length-head l1_misses =
    omega
      (arith, preset_columns-le "L1D_REFILL" "L1D" "%" (omega arith) (omega arith) (omega arith))
length-head l2_misses =
    omega
      (arith, preset_columns-le "L2D_REFILL" "L2D" "%" (omega arith) (omega arith) (omega arith))

pub length-all_heads : (gs : List Group) → length (all_heads gs) ≤ 19 * used gs
length-all_heads [] = omega arith
length-all_heads (g ∷ gs) =
    omega (arith, length-append (all_heads gs) (head g), length-all_heads gs, length-head g)

-- One more entry in front of the zeros.
pub append-zero :
    (xs : List ℕ) (k : ℕ) → xs ++ replicate (suc k) 0 ≡ (xs ++ (0 ∷ [])) ++ replicate k 0
append-zero [] k = refl
append-zero (x ∷ xs) k = ap (λ ys. x ∷ ys) (append-zero xs k)

-- A plain counter and one with a ratio, in front of the zeros.
pub set-append_zeros :
    (xs : List ℕ) (k v : ℕ)
    → set (xs ++ replicate (suc (suc k)) 0) (suc (length xs)) v
      ≡ (xs ++ (0 ∷ v ∷ [])) ++ replicate k 0
set-append_zeros [] k v = refl
set-append_zeros (x ∷ xs) k v = ap (λ ys. x ∷ ys) (set-append_zeros xs k v)
