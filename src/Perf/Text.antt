-- ===== src/Perf/Text.antt =====
-- The conversions of `sprintf` that ututna/perf.c uses, on character codes: `%Ns` and `%X`.
use Prim.Native.Char.{code}
use Prim.Native.String.{String}
use rebench.Base.{
  ℕ, zero, suc, ◌+◌, ◌-◌, ◌/◌, ◌%◌, ◌≤◌, List, [], ◌∷◌, ◌++◌, arith, ltb, if◌then◌else◌, length,
  replicate, length-append, length-replicate,
}

abbrev pub codes : String → List ℕ
codes String.[] = []
codes (String.◌∷◌ c s) = code c ∷ codes s

-- `%Ns`: spaces on the left up to `n` characters.
unfoldable pub pad : ℕ → List ℕ → List ℕ
pad n s = replicate (n - length s) 0x20 ++ s

-- A digit of `%X`.
unfoldable pub hex_digit : ℕ → ℕ
hex_digit d = if ltb d 10 then b'0' + d else b'A' + (d - 10)

-- At most `fuel` digits of `n`, in front of `rest`.
unfoldable pub hex_digits : ℕ → ℕ → List ℕ → List ℕ
unfolding hex_digit
hex_digits zero n rest = rest
hex_digits (suc fuel) n rest =
    let more = hex_digits fuel (n / 16) (hex_digit (n % 16) ∷ rest) in
    if ltb n 16 then hex_digit n ∷ rest else more

-- `%X` of an `unsigned int`, which has at most eight digits.
unfoldable pub hex : ℕ → List ℕ
unfolding hex_digits
hex n = hex_digits 8 n []

pub length-pad_le : (n m : ℕ) (s : List ℕ) → length s ≤ m → n ≤ m → length (pad n s) ≤ m
unfolding pad
length-pad_le n m s h k = omega (
  arith,
  length-append {A = ℕ} (replicate (n - length s) 0x20) s,
  length-replicate {A = ℕ} (n - length s) 0x20,
)

length-hex_digits :
    (fuel n : ℕ) (rest : List ℕ) → length (hex_digits fuel n rest) ≤ fuel + length rest
unfolding hex_digits
length-hex_digits zero n rest = omega arith
length-hex_digits (suc fuel) n rest =
    ground (arith, length-hex_digits fuel (n / 16) (hex_digit (n % 16) ∷ rest))

pub length-hex : (n : ℕ) → length (hex n) ≤ 8
unfolding hex
length-hex n = length-hex_digits 8 n []
