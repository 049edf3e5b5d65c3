-- ===== src/Examples/Memories.antt =====
-- The loader, `s_calloc`, thread-specific data and the picture at concrete inputs.
use rebench.Base.{
  zero, suc, ap, ℕ, ◌+◌, ◌*◌, ◌%◌, ◌<◌, ◌≤◌, ◌≡◌, refl, inl, inr, ◌⊎◌, true, not, some, List, [],
  ◌∷◌, ◌++◌, arith, ◌==◌, All, fault, done, M, replicate, length, Returns, get_elem?,
}
use rebench.Reloc.Space.{Space}
use rebench.Reloc.Load.{Entry, r_aarch64_relative, do_reloc, align, align_up, Layout, Kernel, reloc}
use rebench.Reloc.Table.{Relocated, IsTable, do_reloc-Relocated}
use rebench.Reloc.Layout.{IsLayout, IsPlaced, IsLoaded, Untouched}
use rebench.Reloc.Pages.{align_bounds, reloc-IsLoaded}
use rebench.Shim.Calloc.{Callocator, s_calloc, Allocates, s_calloc-zero, s_calloc_null}
use rebench.Shim.Thread.{
  Shim, set_specific, get_specific, Use, run_uses, posix_reads, run_uses-posix,
}
use rebench.Shim.SelfTest.{Memset, IsMemset, pass, test_memset, test_memset-IsMemset}
use rebench.Boot.{
  boot, StartCall, malloc, free, serve, Tiles, Accounts, demand, serve-Tiles, heap_start, reserve,
  reserve_above,
}

-- An address space in which everything but address 0 can be written.
abbrev space : Space
space = record { byte = λ a. a % 256; writable = λ a. not (a == 0) }

abbrev kernel : Kernel
kernel = record { mmap_result = λ addr size. addr; mprotect_works = true }

abbrev layout : Layout
layout = record {
  bin_start = 0x1000;
  bin_size = 0x1800;
  addr = 0x42000000;
  size = 0x200000;
  rom_start = 0;
  text_start = 0x100;
  text_size = 0x400;
  bss_start = 0x3000;
  bss_size = 0x200;
}

layout-IsLayout : IsLayout layout
layout-IsLayout = record {
  fits = omega arith;
  rom_fits = omega arith;
  text_fits = omega arith;
  bss_fits = omega arith;
  image_apart = inl (omega arith);
}

abbrev relocs : List Entry
relocs =
    record { offset = 0x2000; addr = 0x100; type = r_aarch64_relative }
    ∷ record { offset = 0x2008; addr = 0x1234; type = 0 }
    ∷ []

abbrev last_entry : Entry
last_entry = record { offset = 0; addr = 0; type = 0 }

relocs-IsTable : IsTable 0x42000000 relocs
relocs-IsTable = (omega arith, (inl (omega arith), tt), (omega arith, tt, tt))

relocs-IsPlaced : All (IsPlaced layout) relocs
relocs-IsPlaced =
    let bounds = align_bounds 0x42000500 (omega arith) in
    (
      (omega arith, omega arith, inr (omega (arith, bounds))),
      ((omega arith, omega arith, inr (omega (arith, bounds))), tt),
    )

do_reloc-Relocated_example :
    Returns
      (λ _ t. Relocated 0x42000000 relocs space t)
      (do_reloc (relocs ++ (last_entry ∷ [])) 0x42000000 space)
do_reloc-Relocated_example =
    do_reloc-Relocated 0x42000000 relocs last_entry [] space relocs-IsTable
      (λ b lo hi. ground arith, (λ b lo hi. ground arith, tt)) refl

reloc-IsLoaded_example :
    Returns
      (λ _ t. IsLoaded kernel layout relocs space t × Untouched kernel layout space t)
      (reloc kernel layout (relocs ++ (last_entry ∷ [])) space)
reloc-IsLoaded_example =
    reloc-IsLoaded layout layout-IsLayout kernel relocs last_entry [] space refl relocs-IsTable
      relocs-IsPlaced refl

align_bounds_example :
    (align 5000 % 4096 ≡ 0)
    × (align 5000 ≤ 5000)
    × (5000 < align 5000 + 4096)
    × (align_up 5000 % 4096 ≡ 0)
    × (5000 ≤ align_up 5000)
    × (align_up 5000 < 5000 + 4096)
align_bounds_example = align_bounds 5000 (omega arith)

-- An allocator that hands out dirty blocks, which is allowed above 20480 bytes, and one that has no
-- memory left.
abbrev dirty : Callocator
dirty n size s = (0x1000, s)

abbrev exhausted : Callocator
exhausted n size s = (0, s)

dirty-Allocates : Allocates dirty 2 30000 space
dirty-Allocates = record {
  writes = λ b lo hi. ground arith;
  small_zero = λ small. absurd (omega arith);
}

s_calloc-zero_example :
    Returns
      (λ ptr t.
        (ptr ≡ 0x1000)
        × ((b : ℕ) → ptr ≤ b → b < ptr + 2 * 30000 → t.byte b ≡ 0)
        × ((b : ℕ) → (b < ptr) ⊎ (ptr + 2 * 30000 ≤ b) → t.byte b ≡ (dirty 2 30000 space).1.byte b))
      (s_calloc dirty 2 30000 space)
s_calloc-zero_example = s_calloc-zero dirty 2 30000 space (omega arith) dirty-Allocates

s_calloc_null_example : s_calloc exhausted 2 30000 space ≡ fault
s_calloc_null_example = s_calloc_null exhausted 2 30000 space refl refl (omega arith)

abbrev uses : List Use
uses = set_specific 1 0x5000 ∷ get_specific 1 ∷ []

abbrev no_value : Shim
no_value = record { thread_value = 0; byte = λ a. 0 }

run_uses-posix_example :
    Returns
      (λ vs t. (vs ≡ posix_reads (λ k. 0) uses) × (t.byte ≡ no_value.byte))
      (run_uses uses no_value)
run_uses-posix_example = run_uses-posix 1 uses (λ k. 0) no_value (refl, (refl, tt)) refl

-- A `memset` on lists.
abbrev set_bytes : Memset
set_bytes buf c zero = buf
set_bytes [] c (suc n) = []
set_bytes (v ∷ buf) c (suc n) = c ∷ set_bytes buf c n

set_bytes_sets :
    (buf : List ℕ) (c n i : ℕ) → n ≤ length buf → i < n → get_elem? (set_bytes buf c n) i ≡ some c
set_bytes_sets buf c zero i le lt = absurd (omega arith)
set_bytes_sets [] c (suc n) i le lt = absurd (omega arith)
set_bytes_sets (v ∷ buf) c (suc n) zero le lt = refl
set_bytes_sets (v ∷ buf) c (suc n) (suc i) le lt =
    set_bytes_sets buf c n i (omega arith) (omega arith)

set_bytes_leaves :
    (buf : List ℕ) (c n i : ℕ) → n ≤ i → get_elem? (set_bytes buf c n) i ≡ get_elem? buf i
set_bytes_leaves buf c zero i le = refl
set_bytes_leaves [] c (suc n) i le = refl
set_bytes_leaves (v ∷ buf) c (suc n) zero le = absurd (omega arith)
set_bytes_leaves (v ∷ buf) c (suc n) (suc i) le = set_bytes_leaves buf c n i (omega arith)

length-set_bytes : (buf : List ℕ) (c n : ℕ) → length (set_bytes buf c n) ≡ length buf
length-set_bytes buf c zero = refl
length-set_bytes [] c (suc n) = refl
length-set_bytes (v ∷ buf) c (suc n) = ap suc (length-set_bytes buf c n)

set_bytes-IsMemset : IsMemset set_bytes
set_bytes-IsMemset = record {
  sets = set_bytes_sets;
  leaves = set_bytes_leaves;
  same_length = length-set_bytes;
}

test_memset-IsMemset_example : test_memset set_bytes (replicate 10 0xcc) ≡ pass 28 ∷ []
test_memset-IsMemset_example =
    test_memset-IsMemset set_bytes (replicate 10 0xcc) set_bytes-IsMemset refl

abbrev start_calls : List StartCall
start_calls = malloc 1024 ∷ malloc 24 ∷ free 0 ∷ malloc 100 ∷ []

serve-Tiles_example :
    Returns
      (λ blocks t. Tiles 0 blocks t.ptr × Accounts t × (t.ptr ≡ 0 + demand start_calls))
      (serve start_calls boot)
serve-Tiles_example = serve-Tiles start_calls boot refl (omega arith)

abbrev sbrk : ℕ → M ℕ ℕ
sbrk incr end = done end (end + incr)

reserve_above_example :
    Returns
      (λ _ after.
        (heap_start ≤ after)
        × (0x40100000 + 0x1000 ≤ after)
        × ((after ≡ heap_start) ⊎ (after ≡ 0x40100000 + 0x1000)))
      (reserve sbrk 0x40100000)
reserve_above_example = reserve_above sbrk 0x40100000 (λ incr end. refl)
