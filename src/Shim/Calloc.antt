-- ===== src/Shim/Calloc.antt =====
-- stdlib/jemalloc.c: `s_calloc`. jemalloc leaves large blocks to a fresh mapping, which is not zero
-- under SEMIHOSTING, so `s_calloc` clears blocks of 20480 bytes and more itself.
use rebench.Base.{
  ◌>>=◌, ◌>>◌, ℕ, zero, suc, ◌+◌, ◌*◌, ◌^◌, ◌≤◌, ◌<◌, ◌≡◌, refl, ◌⊎◌, inl, inr, true, false, arith,
  leb, Bool-cases, u64, M, done, fault, when, Returns, returns, pure,
}
use rebench.Reloc.Space.{Space, all_writable, all_writable_of}
use rebench.Reloc.Load.{memset}

abbrev pub clear_from : ℕ
clear_from = 20480

-- `je_calloc`, which lies in the extracted library: the pointer, 0 for NULL, and the memory after it.
abbrev pub Callocator : Type 0
Callocator = (n size : ℕ) → Space → ℕ × Space

guarded_block : (t : Space) (n : ℕ) → 0 < n → t.writable 0 ≡ false → all_writable t 0 n ≡ false
unfolding all_writable
guarded_block t zero some_bytes guarded = absurd (omega arith)
guarded_block t (suc n) some_bytes guarded = rw guarded

module _ (calloc0 : Callocator) where
  unfoldable pub s_calloc0 : (n size : ℕ) → M Space ℕ
  s_calloc0 n size s = let (ptr, t) = calloc0 n size s in done ptr t

  unfoldable pub s_calloc : (n size : ℕ) → M Space ℕ
  unfolding s_calloc0 memset
  s_calloc n size = do
    ptr ← s_calloc0 n size
    let total = u64 (n * size)
    when (leb clear_from total) (memset ptr 0 total)
    pure ptr

  -- What jemalloc does where it succeeds: the block may be written, and a block below 20480 bytes is
  -- zero.
  pub record Allocates (n size : ℕ) (s : Space) : Type 0 where
    pub writes :
        (b : ℕ)
        → (calloc0 n size s).0 ≤ b
        → b < (calloc0 n size s).0 + n * size
        → (calloc0 n size s).1.writable b ≡ true
    pub small_zero :
        n * size < clear_from
        → (b : ℕ) → (calloc0 n size s).0 ≤ b
        → b < (calloc0 n size s).0 + n * size
        → (calloc0 n size s).1.byte b ≡ 0

  -- Where jemalloc succeeds, and the size does not overflow, `s_calloc` returns its block, every byte
  -- of it zero whatever its size, and changes nothing outside the block.
  pub s_calloc-zero :
      (n size : ℕ) (s : Space)
      → n * size < 2 ^ 64
      → Allocates n size s
      → Returns
          (λ ptr t.
            (ptr ≡ (calloc0 n size s).0)
            × ((b : ℕ) → ptr ≤ b → b < ptr + n * size → t.byte b ≡ 0)
            × ((b : ℕ) → (b < ptr) ⊎ (ptr + n * size ≤ b) → t.byte b ≡ (calloc0 n size s).1.byte b))
          (s_calloc n size s)
  unfolding s_calloc memset
  s_calloc-zero n size s small h =
      let whole : u64 (n * size) ≡ n * size = omega arith in
      elim (Bool-cases (leb clear_from (n * size))) [
        | inl large ↦
            rw
              (
                whole,
                large,
                all_writable_of (calloc0 n size s).1 (calloc0 n size s).0 (n * size) h.writes,
              )
              (returns (refl, λ b lo hi. ground arith, λ b out. ground arith))
        | inr below ↦ rw (whole, below) (returns (refl, h.small_zero (ground arith), λ b out. refl))
      ]

  -- Where jemalloc returns NULL for a size, as the code computes it, of 20480 bytes or more, and
  -- address 0 may not be written, `s_calloc` faults instead of returning NULL.
  pub s_calloc_null :
      (n size : ℕ) (s : Space)
      → (calloc0 n size s).0 ≡ 0
      → (calloc0 n size s).1.writable 0 ≡ false
      → clear_from ≤ u64 (n * size)
      → s_calloc n size s ≡ fault
  unfolding s_calloc memset all_writable
  s_calloc_null n size s null guarded large =
      let clears : leb clear_from (u64 (n * size)) ≡ true = ground arith in
      rw (clears, null, guarded_block (calloc0 n size s).1 (u64 (n * size)) (omega arith) guarded)
        refl
