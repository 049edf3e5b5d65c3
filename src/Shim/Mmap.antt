-- ===== src/Shim/Mmap.antt =====
-- stdlib/jemalloc.c as it is built for semihosting: the pages of jemalloc come from the end of the
-- heap, and none is ever given back.
use rebench.Base.{
  ℕ, ◌+◌, ◌-◌, ◌%◌, ◌^◌, ◌≤◌, ◌<◌, ◌≡◌, refl, List, [], ◌∷◌, arith, All, ℤ, pos, negsuc, pos_part,
  neg_part, u32, signed32, M, done, ◌>>=◌, Returns, returns, Returns-and_then, pure, lt→ltb,
  le→ltb_false,
}
use rebench.Boot.{Tiles, no_block, block}

-- What jemalloc asks of the system.
pub data SystemCall : Type 0 where
  mmap : (len : ℕ) → SystemCall
  munmap madvise : (addr len : ℕ) → SystemCall

-- The time that `clock_gettime` stores, and what it returns.
unfoldable pub clock_gettime : (clk_id : ℕ) → M ℕ (ℕ × ℕ × ℕ)
clock_gettime clk_id = pure (0, 0, 0)

-- An amount of whole pages that an `int` holds.
abbrev pub IsRequest : SystemCall → Type 0
IsRequest (mmap len) = (len % 4096 ≡ 0) × (len < 2 ^ 31)
IsRequest (munmap addr len) = Unit
IsRequest (madvise addr len) = Unit

-- The state is the end of the heap. `_sbrk` moves it by a signed number of bytes and returns where it
-- was; it belongs to the C library, which runs out of memory only where a heap meets the stack.
module _ (sbrk : ℤ → M ℕ ℕ) where
  -- `len` is a `size_t`, and the argument of `_sbrk` an `int`.
  unfoldable pub s_mmap : (addr len prot flags : ℕ) (fd off : ℤ) → M ℕ ℕ
  s_mmap addr len prot flags fd off = sbrk (signed32 (u32 len))

  unfoldable pub s_munmap : (addr len : ℕ) → M ℕ ℕ
  s_munmap addr len = pure 0

  unfoldable pub s_madvise : (addr len advice : ℕ) → M ℕ ℕ
  s_madvise addr len advice = pure 0

  -- The calls one after the other: the blocks that are handed out, each with its length. The other
  -- arguments do not matter.
  unfoldable pub run_calls : List SystemCall → M ℕ (List (ℕ × ℕ))
  unfolding s_mmap s_munmap s_madvise
  run_calls [] = pure []
  run_calls (mmap len ∷ calls) = do
    at ← s_mmap 0 len 3 34 (negsuc 0) (pos 0)
    blocks ← run_calls calls
    pure ((at, len) ∷ blocks)
  run_calls (munmap addr len ∷ calls) = do _ ← s_munmap addr len; run_calls calls
  run_calls (madvise addr len ∷ calls) = do _ ← s_madvise addr len 4; run_calls calls

  abbrev pub IsSbrk : Type 0
  IsSbrk = (incr : ℤ) (end : ℕ) → sbrk incr end ≡ done end (end + pos_part incr - neg_part incr)

  -- If `_sbrk` moves the end of the heap by what it is asked for, the heap ends at a page, and
  -- jemalloc asks for whole pages below 2 ^ 31 bytes, the blocks begin at pages and follow each other
  -- from the end of the heap on, so that none overlaps another or what was allocated before, whatever
  -- is given back.
  pub run_calls-Tiles :
      (calls : List SystemCall) (end : ℕ)
      → IsSbrk
      → end % 4096 ≡ 0
      → All IsRequest calls
      → Returns
          (λ blocks after. Tiles end blocks after × All (λ (b : ℕ × ℕ). b.0 % 4096 ≡ 0) blocks)
          (run_calls calls end)
  unfolding run_calls s_mmap s_munmap s_madvise
  run_calls-Tiles [] end moves page fit = returns (no_block, tt)
  run_calls-Tiles (mmap len ∷ calls) end moves page ((pages, small), fit) =
      let whole : u32 len ≡ len = omega arith in
      let same : end + len - 0 ≡ end + len = omega arith in
      rw (whole, lt→ltb len (2 ^ 31) small, moves (pos len) end, same)
        (Returns-and_then (run_calls-Tiles calls (end + len) moves (omega arith) fit)
          λ blocks after (tiles, aligned). returns (block len tiles, (page, aligned)))
  run_calls-Tiles (munmap addr len ∷ calls) end moves page (_, fit) =
      run_calls-Tiles calls end moves page fit
  run_calls-Tiles (madvise addr len ∷ calls) end moves page (_, fit) =
      run_calls-Tiles calls end moves page fit

  -- A length whose low 32 bits are a negative `int` moves the end of the heap back by as much, where
  -- it is as high as that: the block starts at the old end, but the next one will start below it,
  -- where the blocks before are.
  pub s_mmap_back :
      (addr len prot flags : ℕ) (fd off : ℤ) (end : ℕ)
      → IsSbrk
      → 2 ^ 31 ≤ u32 len
      → 2 ^ 32 - u32 len ≤ end
      → Returns
          (λ at after. (at ≡ end) × (after ≡ end - (2 ^ 32 - u32 len)) × (after < end))
          (s_mmap addr len prot flags fd off end)
  unfolding s_mmap
  s_mmap_back addr len prot flags fd off end moves large room =
      rw (le→ltb_false (u32 len) (2 ^ 31) large, moves (negsuc (2 ^ 32 - u32 len - 1)) end)
        (returns (refl, omega arith, omega arith))
