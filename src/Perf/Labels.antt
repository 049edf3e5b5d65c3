-- ===== src/Perf/Labels.antt =====
-- The column heads of ututna/perf.c read back: which counter a name such as " HW(0x1A)" stands for.
use rebench.Base.{
  ℕ, zero, suc, ◌+◌, ◌-◌, ◌*◌, ◌/◌, ◌%◌, ◌^◌, ◌<◌, ◌≡◌, refl, ◌∙◌, ap, inl, inr, Bool, true, Option,
  none, some, List, [], ◌∷◌, ◌++◌, arith, ltb, ◌==◌, ◌&&◌, ◌||◌, if◌then◌else◌, Bool-cases,
}
use rebench.Os.{PerfType, hardware, hw_cache, raw}
use rebench.Perf.Text.{codes, hex_digit, hex_digits, hex}
use rebench.Perf.Config.{type_of_option, counter_name}

abbrev pub is_hex : ℕ → Bool
is_hex c = (ltb 47 c && ltb c 58) || (ltb 64 c && ltb c 71)

abbrev pub hex_value : ℕ → ℕ
hex_value c = if ltb c 58 then c - 48 else c - 55

-- The hexadecimal number at the front, after the digits of `acc`, and what stands behind it.
unfoldable pub read_hex : ℕ → List ℕ → ℕ × List ℕ
read_hex acc [] = (acc, [])
read_hex acc (c ∷ cs) =
    let more = read_hex (acc * 16 + hex_value c) cs in if is_hex c then more else (acc, c ∷ cs)

hex_digit-is_hex : (d : ℕ) → d < 16 → is_hex (hex_digit d) ≡ true
unfolding hex_digit
hex_digit-is_hex d h = ground arith

hex_value-hex_digit : (d : ℕ) → d < 16 → hex_value (hex_digit d) ≡ d
unfolding hex_digit
hex_value-hex_digit d h = ground arith

read_hex-digit :
    (acc d : ℕ) (rest : List ℕ)
    → d < 16
    → read_hex acc (hex_digit d ∷ rest) ≡ read_hex (acc * 16 + d) rest
unfolding read_hex
read_hex-digit acc d rest h = rw (hex_digit-is_hex d h, hex_value-hex_digit d h) refl

read_hex-first_digit :
    (d : ℕ) (rest : List ℕ) → d < 16 → read_hex 0 (hex_digit d ∷ rest) ≡ read_hex d rest
read_hex-first_digit d rest h =
    let sum : 0 * 16 + d ≡ d = omega arith in
    read_hex-digit 0 d rest h ∙ ap (λ m. read_hex m rest) sum

-- `suc fuel` digits are enough for a number below 16 ^ suc fuel.
read_hex-hex_digits :
    (fuel n : ℕ) (rest : List ℕ)
    → n < 16 ^ suc fuel
    → read_hex 0 (hex_digits (suc fuel) n rest) ≡ read_hex n rest
unfolding hex_digits
read_hex-hex_digits zero n rest h =
    let small : ltb n 16 ≡ true = ground arith in
    rw small (read_hex-first_digit n rest (omega arith))
read_hex-hex_digits (suc k) n rest h = elim (Bool-cases (ltb n 16)) [
  | inl small ↦ rw small (read_hex-first_digit n rest (ground (arith, small)))
  | inr large ↦
      let parts : n / 16 * 16 + n % 16 ≡ n = omega arith in
      rw large (
        read_hex-hex_digits k (n / 16) (hex_digit (n % 16) ∷ rest) (omega arith)
        ∙ read_hex-digit (n / 16) (n % 16) rest (omega arith)
        ∙ ap (λ m. read_hex m rest) parts)
]

-- What is behind `prefix`, where the text starts with it.
unfoldable pub strip_prefix : List ℕ → List ℕ → Option (List ℕ)
strip_prefix [] cs = some cs
strip_prefix (p ∷ ps) [] = none
strip_prefix (p ∷ ps) (c ∷ cs) = let rest = strip_prefix ps cs in if p == c then rest else none

-- The event in front of a closing parenthesis at the end.
unfoldable pub event_of : PerfType → ℕ × List ℕ → Option (PerfType × ℕ)
event_of type (n, c ∷ []) = if c == b')' then some (type, n) else none
event_of type (n, _) = none

-- The kind and the event that a column head names.
unfoldable pub read_label : List ℕ → Option (PerfType × ℕ)
unfolding read_hex strip_prefix event_of
read_label cs = elim (strip_prefix (codes " HW(0x") cs) [
  | some rest ↦ event_of hardware (read_hex 0 rest)
  | none ↦ elim (strip_prefix (codes " CACHE(0x") cs) [
    | some rest ↦ event_of hw_cache (read_hex 0 rest)
    | none ↦ elim (strip_prefix (codes " RAW(0x") cs) [
      | some rest ↦ event_of raw (read_hex 0 rest)
      | none ↦ none
    ]
  ]
]

hex_digits-append :
    (fuel n : ℕ) (rest tail : List ℕ)
    → hex_digits fuel n rest ++ tail ≡ hex_digits fuel n (rest ++ tail)
unfolding hex_digits
hex_digits-append zero n rest tail = refl
hex_digits-append (suc fuel) n rest tail = elim (Bool-cases (ltb n 16)) [
  | inl small ↦ rw small refl
  | inr large ↦ rw large (hex_digits-append fuel (n / 16) (hex_digit (n % 16) ∷ rest) tail)
]

hex-eq : (n : ℕ) → hex n ≡ hex_digits 8 n []
unfolding hex hex_digits
hex-eq n = refl

read_hex-stops : (n : ℕ) → read_hex n (codes ")") ≡ (n, codes ")")
unfolding read_hex
read_hex-stops n = refl

event_of-hex :
    (type : PerfType) (n : ℕ)
    → n < 2 ^ 32
    → event_of type (read_hex 0 (hex n ++ codes ")")) ≡ some (type, n)
unfolding event_of
event_of-hex type n h = rw (
  hex-eq n,
  hex_digits-append 8 n [] (codes ")"),
  read_hex-hex_digits 7 n (codes ")") (omega arith),
  read_hex-stops n,
)

-- The head that `perf_config` makes for a counter names its kind and all 32 bits of its event: read
-- back, it gives the type and the event that the counter was opened with.
pub read_label-counter_name :
    (type event : ℕ)
    → event < 2 ^ 32
    → read_label (counter_name type event) ≡ some (type_of_option type, event)
unfolding read_label counter_name
read_label-counter_name type event h = elim (Bool-cases (type == b'h')) [
  | inl hw ↦ rw hw (event_of-hex hardware event h)
  | inr no_hw ↦ elim (Bool-cases (type == b'c')) [
    | inl cache ↦ rw (no_hw, cache) (event_of-hex hw_cache event h)
    | inr no_cache ↦ rw (no_hw, no_cache) (event_of-hex raw event h)
  ]
]
