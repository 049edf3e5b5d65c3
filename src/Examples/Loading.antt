-- ===== src/Examples/Loading.antt =====
-- Both builds of `bootstrap`, and the pages of jemalloc, at concrete inputs.
use rebench.Base.{
  ℕ, zero, ◌+◌, ◌-◌, ◌%◌, ◌<◌, ◌≤◌, ◌≡◌, refl, inl, inr, true, List, [], ◌∷◌, arith, All, M, done,
  Returns, ℤ, pos, negsuc, pos_part, neg_part,
}
use rebench.Reloc.Space.{Space}
use rebench.Reloc.Load.{Entry, r_aarch64_relative, Kernel, reloc}
use rebench.Reloc.Pages.{align_bounds}
use rebench.Reloc.Layout.{IsLoaded}
use rebench.Reloc.Semihosting.{reloc_semihosting, reloc_semihosting-eq-reloc}
use rebench.Boot.{boot, Tiles}
use rebench.Boot.Libraries.{
  Library, layout_at, jemalloc_start, jemalloc_size, stdlib_start, stdlib_size, bootstrap, IsBuilt,
  bootstrap-IsLoaded,
}
use rebench.Boot.Semihosting.{Machine, bootstrap_semihosting, bare, bootstrap_semihosting-IsLoaded}
use rebench.Shim.Mmap.{
  SystemCall, mmap, munmap, madvise, run_calls, s_mmap, run_calls-Tiles, s_mmap_back,
}

-- A kernel that maps where it is told and protects memory.
abbrev kernel : Kernel
kernel = record { mmap_result = λ addr size. addr; mprotect_works = true }

-- Memory that holds zeros and can be written.
abbrev zeros : Space
zeros = record { byte = λ a. 0; writable = λ a. true }

abbrev library : (bin_start start : ℕ) → Library
library bin_start start = record {
  bin_start = bin_start;
  bin_size = 0x1800;
  rom_start = 0;
  text_start = 0x100;
  text_size = 0x400;
  bss_start = 0x3000;
  bss_size = 0x200;
  relocs =
      record { offset = 0x2000; addr = 0x100; type = r_aarch64_relative }
      ∷ record { offset = 0; addr = 0; type = 0 }
      ∷ [];
}

abbrev entries : List Entry
entries = record { offset = 0x2000; addr = 0x100; type = r_aarch64_relative } ∷ []

abbrev jemalloc : Library
jemalloc = library 0x10000 jemalloc_start

abbrev stdlib : Library
stdlib = library 0x20000 stdlib_start

jemalloc-IsBuilt : IsBuilt jemalloc_start jemalloc_size jemalloc entries
jemalloc-IsBuilt =
    let bounds = align_bounds 0x41000500 (omega arith) in
    record {
      layout = record {
        fits = omega arith;
        rom_fits = omega arith;
        text_fits = omega arith;
        bss_fits = omega arith;
        image_apart = inl (omega arith);
      };
      last = record { offset = 0; addr = 0; type = 0 };
      ends = refl;
      table = refl;
      slots = (omega arith, tt, tt);
      placed = ((omega arith, omega arith, inr (omega (arith, bounds))), tt);
    }

stdlib-IsBuilt : IsBuilt stdlib_start stdlib_size stdlib entries
stdlib-IsBuilt =
    let bounds = align_bounds 0x42000500 (omega arith) in
    record {
      layout = record {
        fits = omega arith;
        rom_fits = omega arith;
        text_fits = omega arith;
        bss_fits = omega arith;
        image_apart = inl (omega arith);
      };
      last = record { offset = 0; addr = 0; type = 0 };
      ends = refl;
      table = refl;
      slots = (omega arith, tt, tt);
      placed = ((omega arith, omega arith, inr (omega (arith, bounds))), tt);
    }

bootstrap-IsLoaded_example :
    Returns
      (λ _ t.
        IsLoaded kernel (layout_at jemalloc_start jemalloc_size jemalloc) entries zeros t
        × IsLoaded kernel (layout_at stdlib_start stdlib_size stdlib) entries zeros t)
      (bootstrap kernel jemalloc stdlib zeros)
bootstrap-IsLoaded_example =
    bootstrap-IsLoaded kernel jemalloc stdlib entries entries zeros
      (record { jemalloc = refl; stdlib = refl }) jemalloc-IsBuilt stdlib-IsBuilt
      (inl (omega arith))

reloc_semihosting-eq-reloc_example :
    reloc_semihosting (layout_at stdlib_start stdlib_size stdlib) stdlib.relocs zeros
    ≡ reloc bare (layout_at stdlib_start stdlib_size stdlib) stdlib.relocs zeros
reloc_semihosting-eq-reloc_example =
    reloc_semihosting-eq-reloc (layout_at stdlib_start stdlib_size stdlib) zeros
      (record { zeros = λ b lo hi. refl; writes = λ b lo hi. refl }) bare stdlib.relocs refl refl

abbrev sbrk : ℕ → M ℕ ℕ
sbrk incr end = done end (end + incr)

abbrev machine : Machine
machine = record { heap_end = 0x40100000; allocator = boot; space = zeros; messages = [] }

bootstrap_semihosting-IsLoaded_example :
    Returns
      (λ _ n.
        IsLoaded bare (layout_at jemalloc_start jemalloc_size jemalloc) entries zeros n.space
        × IsLoaded bare (layout_at stdlib_start stdlib_size stdlib) entries zeros n.space
        × (jemalloc_start + jemalloc_size ≤ n.heap_end)
        × (stdlib_start + stdlib_size ≤ n.heap_end))
      (bootstrap_semihosting sbrk jemalloc stdlib machine)
bootstrap_semihosting-IsLoaded_example =
    bootstrap_semihosting-IsLoaded sbrk jemalloc stdlib entries entries machine (λ incr end. refl)
      jemalloc-IsBuilt stdlib-IsBuilt (record { zeros = λ b lo hi. refl; writes = λ b lo hi. refl })
      (record { zeros = λ b lo hi. refl; writes = λ b lo hi. refl }) (inl (omega arith))

-- `_sbrk` with an amount that may be negative.
abbrev move : ℤ → M ℕ ℕ
move incr end = done end (end + pos_part incr - neg_part incr)

abbrev calls : List SystemCall
calls = mmap 0x2000 ∷ madvise 0x44000000 0x1000 ∷ mmap 0x1000 ∷ munmap 0x44000000 0x2000 ∷ []

run_calls-Tiles_example :
    Returns
      (λ blocks after. Tiles 0x44000000 blocks after × All (λ (b : ℕ × ℕ). b.0 % 4096 ≡ 0) blocks)
      (run_calls move calls 0x44000000)
run_calls-Tiles_example =
    run_calls-Tiles move calls 0x44000000 (λ incr end. refl) refl
      ((refl, omega arith), (tt, ((refl, omega arith), (tt, tt))))

s_mmap_back_example :
    Returns
      (λ at after. (at ≡ 0x44100000) × (after ≡ 0x44100000 - 0x1000) × (after < 0x44100000))
      (s_mmap move 0 0xfffff000 3 34 (negsuc zero) (pos 0) 0x44100000)
s_mmap_back_example =
    s_mmap_back move 0 0xfffff000 3 34 (negsuc zero) (pos 0) 0x44100000 (λ incr end. refl)
      (omega arith) (omega arith)
