-- ===== src/Main/Gemm.antt =====
-- ututna/main.c: 601_gemm. The kernels get their three matrices from `gemm_malloc`, which keeps the
-- pointers in `gemm_ptrs` until `gemm_cleanup` frees them.
use Prim.Native.String.{String}
use rebench.Base.{
  ◌>>=◌, pure, ℕ, zero, suc, ◌+◌, ◌/◌, List, [], ◌∷◌, leb, ltb, length, check, if◌then◌else◌,
  get_elem?, set, ℤ, pos, negsuc, pos_part, ltb_ℤ, rounds, M, ◌>>◌, get, modify, exit, skip, need,
  when,
}
use rebench.Os.{Event, print, malloc, free, test_sgemm, test_dgemm, sgemm, dgemm, Env}
use rebench.Os.Double.{Double}
use rebench.Main.State.{State, say, ask, repeat, begin, end, print_score}

module _ {D : Type 0} ⦃d : Double D⦄ (env : Env D) where
  unfoldable pub gemm_malloc : ℕ → M (State D) ℕ
  gemm_malloc size = do
    s ← get
    when (leb 3 s.gemm_idx) (say (print "gemm_malloc error.\n" []) >> exit)
    say (malloc size)
    ptr ← ask env.malloc_result
    check (ltb s.gemm_idx (length s.gemm_ptrs))
    modify λ t. record t { gemm_ptrs = set t.gemm_ptrs t.gemm_idx ptr; gemm_idx = t.gemm_idx + 1 }
    pure ptr

  -- It leaves the freeing to `gemm_cleanup`.
  unfoldable pub gemm_free : ℕ → M (State D) (Unit {0})
  gemm_free ptr = skip

  -- The rounds of `gemm_cleanup` from `i` on, `left` of them.
  unfoldable pub gemm_clear : (left i : ℕ) → M (State D) (Unit {0})
  gemm_clear zero i = skip
  gemm_clear (suc left) i =
      (do
        s ← get
        ptr ← need (get_elem? s.gemm_ptrs i)
        say (free ptr)
        modify (λ t. record t { gemm_ptrs = set t.gemm_ptrs i 0 }))
      >> gemm_clear left (i + 1)

  unfoldable pub gemm_cleanup : M (State D) (Unit {0})
  unfolding gemm_clear
  gemm_cleanup = do gemm_clear 3 0; modify λ s. record s { gemm_idx = 0 }

  -- The allocations that a kernel's test makes while it runs.
  unfoldable pub gemm_mallocs : List ℕ → M (State D) (Unit {0})
  unfolding gemm_malloc
  gemm_mallocs [] = skip
  gemm_mallocs (size ∷ sizes) = gemm_malloc size >> gemm_mallocs sizes

  -- One call of a kernel, with the three pointers as they are.
  abbrev pub kernel : (ℕ → ℕ → ℕ → ℕ → Event D) → M (State D) (Unit {0})
  kernel call = do
    s ← get
    a ← need (get_elem? s.gemm_ptrs 0)
    b ← need (get_elem? s.gemm_ptrs 1)
    c ← need (get_elem? s.gemm_ptrs 2)
    say (call 0x100 a b c)

  -- The measured part of `test_601_sgemm` and `test_601_dgemm`.
  unfoldable pub time_kernel : (ℕ → ℕ → ℕ → ℕ → Event D) → ℤ → M (State D) D
  unfolding repeat begin end
  time_kernel call loops = do begin env; repeat (rounds loops) (kernel call); end env

  -- `test_601_sgemm` and `test_601_dgemm`, which differ in the kernel and in the message.
  unfoldable pub test_601_kernel : Event D → (ℕ → ℕ → ℕ → ℕ → Event D) → String → ℤ → M (State D) D
  unfolding gemm_mallocs time_kernel
  test_601_kernel test call message loops = do
    say test
    sizes ← ask env.gemm_sizes
    gemm_mallocs sizes
    result ← ask env.gemm_result
    if d.eq result (d.of_int (negsuc 0))
        then time_kernel call loops
        else (say (print message []) >> pure (d.lit 0 0))

  unfoldable pub test_601_sgemm : ℤ → M (State D) D
  unfolding test_601_kernel
  test_601_sgemm = test_601_kernel test_sgemm sgemm "sgemm error.\n"

  unfoldable pub test_601_dgemm : ℤ → M (State D) D
  unfolding test_601_kernel
  test_601_dgemm = test_601_kernel test_dgemm dgemm "dgemm error.\n"

  -- loops > 1 ? loops / 2 : 1
  abbrev pub half_of : ℤ → ℤ
  half_of loops = if ltb_ℤ (pos 1) loops then pos (pos_part loops / 2) else pos 1

  -- (double)loops * 335.54432 / secs
  abbrev pub gemm_score : ℤ → D → D
  gemm_score loops secs = d.div (d.mul (d.of_int loops) (d.lit 33554432 5)) secs

  unfoldable pub test_601_gemm : ℤ → M (State D) (Unit {0})
  unfolding test_601_sgemm test_601_dgemm gemm_cleanup print_score
  test_601_gemm loops = do
    let loops_dgemm = half_of loops
    sgemm_secs ← test_601_sgemm loops
    let score_sgemm = gemm_score loops sgemm_secs
    print_score "[SGEMM]" score_sgemm loops sgemm_secs
    gemm_cleanup
    dgemm_secs ← test_601_dgemm loops_dgemm
    let score_dgemm = gemm_score loops_dgemm dgemm_secs
    print_score "[DGEMM]" score_dgemm loops_dgemm dgemm_secs
    gemm_cleanup
    print_score "601_GEMM" (d.add score_sgemm score_dgemm) loops (d.add sgemm_secs dgemm_secs)
