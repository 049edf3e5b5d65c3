-- ===== src/Png/Bytes.antt =====
-- A row of an initializer list as one number: its bytes are the digits to the base 256.
use rebench.Base.{
  ℕ, zero, suc, ◌*◌, ◌/◌, ◌%◌, ◌^◌, ◌≡◌, refl, ap, ◌∙◌, List, [], ◌∷◌, ◌++◌, length, length-append,
  arith,
}

unfoldable pub bytes : ℕ → ℕ → List ℕ
bytes zero n = []
bytes (suc k) n = (n / 256 ^ k) % 256 ∷ bytes k n

unfoldable pub bytes_of : List ℕ → List ℕ
bytes_of [] = []
bytes_of (row ∷ rows) = bytes 12 row ++ bytes_of rows

pub length-bytes : (k n : ℕ) → length (bytes k n) ≡ k
unfolding bytes
length-bytes zero n = refl
length-bytes (suc k) n = ap suc (length-bytes k n)

pub length-bytes_of : (rows : List ℕ) → length (bytes_of rows) ≡ 12 * length rows
unfolding bytes_of
length-bytes_of [] = refl
length-bytes_of (row ∷ rows) =
    length-append (bytes 12 row) (bytes_of rows)
    ∙ omega (arith, length-bytes_of rows, length-bytes 12 row)
