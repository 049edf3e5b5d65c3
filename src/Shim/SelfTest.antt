-- ===== src/Shim/SelfTest.antt =====
-- stdlib/stdlib_test.c: the check of the extracted `memset`, which is a parameter here.
use rebench.Base.{
  ℕ, ◌+◌, ◌≤◌, ◌<◌, ◌≡◌, refl, ◌∙◌, Bool, true, false, some, List, [], ◌∷◌, arith, ◌==◌,
  if◌then◌else◌, length, get_elem?, get_or,
}

-- A line on stderr: a test that failed, a test function that passed, or a byte of the buffer.
pub data Line : Type 0 where
  failed pass : (line : ℕ) → Line
  byte : (i v : ℕ) → Line

-- `ret`, and the lines printed, newest first.
abbrev pub Report : Type 0
Report = Bool × List Line

-- TEST
unfoldable pub test : (line : ℕ) → Bool → Report → Report
test line ok (false, out) = (false, out)
test line ok (true, out) = (ok, (if ok then out else failed line ∷ out))

-- END
unfoldable pub finish : (line : ℕ) → Report → Report
finish line (false, out) = (false, out)
finish line (true, out) = (true, pass line ∷ out)

-- The bytes of the buffer from `i` on, printed on top of `out`.
unfoldable pub show_bytes : (i : ℕ) → List ℕ → List Line → List Line
show_bytes i [] out = out
show_bytes i (v ∷ buf) out = show_bytes (i + 1) buf (byte i v ∷ out)

-- memset(buf, c, n): the buffer after the call.
abbrev pub Memset : Type 0
Memset = List ℕ → (c n : ℕ) → List ℕ

-- What the C standard says of it.
pub record IsMemset (memset : Memset) : Type 0 where
  pub sets :
      (buf : List ℕ) (c n i : ℕ) → n ≤ length buf → i < n → get_elem? (memset buf c n) i ≡ some c
  pub leaves : (buf : List ℕ) (c n i : ℕ) → n ≤ i → get_elem? (memset buf c n) i ≡ get_elem? buf i
  pub same_length : (buf : List ℕ) (c n : ℕ) → length (memset buf c n) ≡ length buf

-- The lines that a buffer gives once `ret` is known.
abbrev report_of : List ℕ → Report → List Line
report_of buf (true, out) = out
report_of buf (false, out) = show_bytes 0 buf out

module _ (memset : Memset) where
  -- `buf` is the buffer as it is found, of ten bytes.
  unfoldable pub test_memset : List ℕ → List Line
  unfolding test finish show_bytes
  test_memset buf =
      let b = memset (memset buf 10 10) 5 5 in
      let first = test 25 (get_or b 0 0 == 5) (true, []) in
      let second = test 26 (get_or b 4 0 == 5) first in
      let third = test 27 (get_or b 5 0 == 10) second in report_of b (finish 28 third)

  -- A `memset` that does what the C standard says passes the test with the one line for that,
  -- whatever the ten bytes of the buffer held before.
  pub test_memset-IsMemset :
      (buf : List ℕ) → IsMemset memset → length buf ≡ 10 → test_memset buf ≡ pass 28 ∷ []
  unfolding test_memset
  test_memset-IsMemset buf h ten =
      let full = h.same_length buf 10 10 in
      let byte_0 = h.sets (memset buf 10 10) 5 5 0 (omega (arith, full)) (omega arith) in
      let byte_4 = h.sets (memset buf 10 10) 5 5 4 (omega (arith, full)) (omega arith) in
      let byte_5 =
        h.leaves (memset buf 10 10) 5 5 5 (omega arith)
        ∙ h.sets buf 10 10 5 (omega arith) (omega arith) in
      rw (byte_0, byte_4, byte_5) refl
