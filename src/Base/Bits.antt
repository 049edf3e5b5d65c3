-- ===== src/Base/Bits.antt =====
-- `&` with a mask of high ones, as arithmetic. The native `bit_and` stands for a recursion on binary
-- digits with fuel; here the fuel is dropped.
use Prim.Native.Nat.{
  ℕ, zero, suc, ◌+◌, ◌-◌, ◌*◌, ◌/◌, ◌%◌, ◌^◌, ◌≤◌, ◌<◌, min, bit_and, digits, bit_and-bitwise,
}
use mathlib.Core.Path.{◌≡◌, refl, sym, ap, ◌∙◌}
use native.Mathlib.Omega.{arith}
use native.Mathlib.Nat.{pow-suc, one-le-pow}

-- `a & b` from at most `left` digits of `a`.
abbrev common_digits : (left a b : ℕ) → ℕ
common_digits left = digits (λ _. zero) min left

common_digits_none : (left b : ℕ) → common_digits left 0 b ≡ 0
common_digits_none zero b = refl
common_digits_none (suc left) b = refl

-- More digits than `a` has change nothing.
common_digits_enough :
    (a b spare : ℕ) (left : ℕ)
    → a ≤ left
    → common_digits (left + spare) a b ≡ common_digits left a b
common_digits_enough zero b spare left fits =
    common_digits_none (left + spare) b ∙ sym (common_digits_none left b)
common_digits_enough (suc a) b spare zero fits = absurd (omega arith)
common_digits_enough (suc a) b spare (suc left) fits =
    let next : suc left + spare ≡ suc (left + spare) = omega arith in
    rw next (
      let rest = common_digits_enough (suc a / 2) (b / 2) spare left (omega arith) in
      omega (arith, rest))

-- The lowest digit of `a & b`, and the others.
bit_and_halves : (a b : ℕ) → bit_and a b ≡ bit_and (a / 2) (b / 2) * 2 + min (a % 2) (b % 2)
bit_and_halves zero b = omega (arith, bit_and-bitwise 0 (b / 2), bit_and-bitwise 0 b)
bit_and_halves (suc a) b =
    let half = suc a / 2 in
    let all : half + (a - half) ≡ a = omega arith in
    let rest = common_digits_enough half (b / 2) (a - half) half (omega arith) in
    omega (
      arith,
      ap (λ left. common_digits left half (b / 2)) all,
      rest,
      bit_and-bitwise half (b / 2),
      bit_and-bitwise (suc a) b,
    )

-- A mask that covers a number leaves it.
pub bit_and_cover : (k a : ℕ) → a < 2 ^ k → bit_and a (2 ^ k - 1) ≡ a
bit_and_cover zero a h = omega (arith, bit_and_halves a 0, bit_and-bitwise a 0, zero_case a)
  where
    zero_case : (n : ℕ) → n < 2 ^ 0 → bit_and n (2 ^ 0 - 1) ≡ n
    zero_case zero p = refl
    zero_case (suc n) p = absurd (omega arith)
bit_and_cover (suc k) a h = omega (
  arith,
  bit_and_halves a (2 ^ suc k - 1),
  pow-suc 2 k,
  one-le-pow k 2,
  bit_and_cover k (a / 2) (omega (arith, pow-suc 2 k)),
  ap (bit_and (a / 2)) (half_mask k),
)
  where
    half_mask : (n : ℕ) → (2 ^ suc n - 1) / 2 ≡ 2 ^ n - 1
    half_mask n = omega (arith, pow-suc 2 n, one-le-pow n 2)

abbrev pub halve : ℕ → ℕ → ℕ
halve zero a = a
halve (suc j) a = halve j (a / 2)

-- Zero low bits in the mask clear those bits.
pub bit_and_shift : (j a b : ℕ) → bit_and a (b * 2 ^ j) ≡ bit_and (halve j a) b * 2 ^ j
bit_and_shift zero a b = let same : b * 2 ^ 0 ≡ b = omega arith in rw same (omega arith)
bit_and_shift (suc j) a b =
    let twice : b * 2 ^ suc j ≡ b * 2 ^ j * 2 =
      omega (arith, ap (λ (t : ℕ). b * t) (pow-suc 2 j)) in
    let half : (b * 2 ^ j * 2) / 2 ≡ b * 2 ^ j = omega arith in
    rw twice (
      omega (
        arith,
        bit_and_halves a (b * 2 ^ j * 2),
        ap (bit_and (a / 2)) half,
        bit_and_shift j (a / 2) b,
        ap (λ (t : ℕ). bit_and (halve j (a / 2)) b * t) (pow-suc 2 j),
      ))

-- The mask of `ALIGN` for pages of 4096 bytes, on a 64-bit word.
pub bit_and_page : (a : ℕ) → a < 2 ^ 64 → bit_and a (2 ^ 64 - 4096) ≡ a / 4096 * 4096
bit_and_page a h =
    bit_and_shift 12 a (2 ^ 52 - 1)
    ∙ ap (λ (t : ℕ). t * 4096) (bit_and_cover 52 (halve 12 a) (omega arith) ∙ pages)
  where
    pages : halve 12 a ≡ a / 4096
    pages = omega arith
