-- ===== src/Boot/Semihosting.antt =====
-- `bootstrap` of ututna/bootstrap.c as it is built for semihosting: the heap is moved behind the
-- libraries, and the two libraries are put in place.
use rebench.Base.{
  ℕ, ◌+◌, ◌≤◌, ◌≡◌, refl, ◌∙◌, inl, inr, false, List, ◌∷◌, arith, M, Run, done, exited, fault,
  ◌>>=◌, ◌>>◌, modify, Returns, returns, Returns-mono, Returns-and_then,
}
use rebench.Reloc.Space.{Space}
use rebench.Reloc.Load.{Entry, Layout, Kernel}
use rebench.Reloc.Layout.{IsLoaded, Untouched}
use rebench.Reloc.Semihosting.{reloc_semihosting, IsFresh, reloc_semihosting-eq-reloc}
use rebench.Boot.{Boot, reserve, IsSbrk, reserve_above}
use rebench.Boot.Libraries.{
  Library, layout_at, jemalloc_start, jemalloc_size, stdlib_start, stdlib_size, IsBuilt, Disjoint,
  library-IsLoaded, IsLoaded-stays, IsLoaded-source,
}

-- The end of the heap, the bootstrap allocator, the memory, and the numbers in the messages printed.
pub record Machine : Type 0 where
  pub heap_end : ℕ
  pub allocator : Boot
  pub space : Space
  pub messages : List (ℕ × ℕ)

abbrev pub put_heap : {A : Type 0} → Machine → Run ℕ A → Run Machine A
put_heap m (done a end) = done a (record m { heap_end = end })
put_heap m (exited end) = exited (record m { heap_end = end })
put_heap m fault = fault

abbrev pub put_space : {A : Type 0} → Machine → Run Space A → Run Machine A
put_space m (done a s) = done a (record m { space = s })
put_space m (exited s) = exited (record m { space = s })
put_space m fault = fault

abbrev pub on_heap : {A : Type 0} → M ℕ A → M Machine A
on_heap f m = put_heap m (f m.heap_end)

abbrev pub on_space : {A : Type 0} → M Space A → M Machine A
on_space f m = put_space m (f m.space)

module _ (sbrk : ℕ → M ℕ ℕ) where
  unfoldable pub bootstrap_semihosting : (jemalloc stdlib : Library) → M Machine (Unit {0})
  unfolding reserve reloc_semihosting
  bootstrap_semihosting jemalloc stdlib = do
    p ← on_heap (reserve sbrk)
    on_space (reloc_semihosting (layout_at jemalloc_start jemalloc_size jemalloc) jemalloc.relocs)
    on_space (reloc_semihosting (layout_at stdlib_start stdlib_size stdlib) stdlib.relocs)
    modify (λ m. record m { messages = (p, m.allocator.remaining) ∷ m.messages })

-- There is no kernel that could refuse to map or that protects memory.
abbrev pub bare : Kernel
bare = record { mmap_result = λ addr size. addr; mprotect_works = false }

put_heap-Returns :
    {A : Type 0} {P : A → ℕ → Type 0} (m : Machine) {r : Run ℕ A}
    → Returns P r
    → Returns (λ a n. P a n.heap_end × (n.space ≡ m.space)) (put_heap m r)
put_heap-Returns m (returns p) = returns (p, refl)

put_space-Returns :
    {A : Type 0} {P : A → Space → Type 0} (m : Machine) {r : Run Space A}
    → Returns P r
    → Returns (λ a n. P a n.space × (n.heap_end ≡ m.heap_end)) (put_space m r)
put_space-Returns m (returns p) = returns (p, refl)

library_fresh-IsLoaded :
    (start size : ℕ) (lib : Library) (es : List Entry) (s : Space)
    → IsBuilt start size lib es
    → IsFresh (layout_at start size lib) s
    → Returns
        (λ _ t.
          IsLoaded bare (layout_at start size lib) es s t
          × Untouched bare (layout_at start size lib) s t)
        (reloc_semihosting (layout_at start size lib) lib.relocs s)
library_fresh-IsLoaded start size lib es s built fresh =
    rw (reloc_semihosting-eq-reloc (layout_at start size lib) s fresh bare lib.relocs refl refl)
      (library-IsLoaded bare start size lib es s refl built)

-- What is fresh stays so while another library is loaded elsewhere.
IsFresh-stays :
    (l k : Layout) (s t : Space)
    → Disjoint l.addr l.size k.addr k.size
    → IsFresh l s
    → Untouched bare k s t
    → IsFresh l t
IsFresh-stays l k s t apart fresh same = record {
  zeros = λ b lo hi. same.frame b (omega arith) ∙ fresh.zeros b lo hi;
  writes = λ b lo hi. same.same_writable refl b (omega arith) ∙ fresh.writes b lo hi;
}

libraries-IsLoaded :
    (jemalloc stdlib : Library) (js ss : List Entry) (s : Space) (n : Machine) (p : ℕ)
    → n.space ≡ s
    → IsBuilt jemalloc_start jemalloc_size jemalloc js
    → IsBuilt stdlib_start stdlib_size stdlib ss
    → IsFresh (layout_at jemalloc_start jemalloc_size jemalloc) s
    → IsFresh (layout_at stdlib_start stdlib_size stdlib) s
    → Disjoint stdlib.bin_start stdlib.bin_size jemalloc_start jemalloc_size
    → Returns
        (λ _ o.
          IsLoaded bare (layout_at jemalloc_start jemalloc_size jemalloc) js s o.space
          × IsLoaded bare (layout_at stdlib_start stdlib_size stdlib) ss s o.space
          × (o.heap_end ≡ n.heap_end))
        ((on_space
              (reloc_semihosting (layout_at jemalloc_start jemalloc_size jemalloc) jemalloc.relocs)
            >> (on_space
                  (reloc_semihosting (layout_at stdlib_start stdlib_size stdlib) stdlib.relocs)
                >> modify (λ m. record m { messages = (p, m.allocator.remaining) ∷ m.messages })))
          n)
libraries-IsLoaded jemalloc stdlib js ss s n p same j b fresh_j fresh_b apart =
    let jl = layout_at jemalloc_start jemalloc_size jemalloc in
    let sl = layout_at stdlib_start stdlib_size stdlib in
    rw same (
      Returns-and_then
        (put_space-Returns n
          (library_fresh-IsLoaded jemalloc_start jemalloc_size jemalloc js s j fresh_j))
        λ _ o ((loaded, untouched), kept).
          Returns-and_then
            (put_space-Returns o (
              library_fresh-IsLoaded stdlib_start stdlib_size stdlib ss o.space b
                (IsFresh-stays sl jl s o.space (inr (omega arith)) fresh_b untouched)))
            λ _ q ((loaded', untouched'), kept'). returns (
              IsLoaded-stays bare jl sl js s o.space q.space (inl (omega arith)) j.layout j.placed
                  loaded untouched',
              IsLoaded-source bare sl jl ss s o.space q.space apart untouched loaded',
              kept' ∙ kept,
            ))

-- If `_sbrk` moves the end of the heap by what it is asked for, the build made both libraries for their
-- addresses, the room for them is fresh memory, and the image of the second does not lie where the
-- first is put, then `bootstrap` ends without a fault with both libraries loaded as their images in
-- the program say, and the heap begins behind the room of both.
pub bootstrap_semihosting-IsLoaded :
    (sbrk : ℕ → M ℕ ℕ) (jemalloc stdlib : Library) (js ss : List Entry) (m : Machine)
    → IsSbrk sbrk
    → IsBuilt jemalloc_start jemalloc_size jemalloc js
    → IsBuilt stdlib_start stdlib_size stdlib ss
    → IsFresh (layout_at jemalloc_start jemalloc_size jemalloc) m.space
    → IsFresh (layout_at stdlib_start stdlib_size stdlib) m.space
    → Disjoint stdlib.bin_start stdlib.bin_size jemalloc_start jemalloc_size
    → Returns
        (λ _ n.
          IsLoaded bare (layout_at jemalloc_start jemalloc_size jemalloc) js m.space n.space
          × IsLoaded bare (layout_at stdlib_start stdlib_size stdlib) ss m.space n.space
          × (jemalloc_start + jemalloc_size ≤ n.heap_end)
          × (stdlib_start + stdlib_size ≤ n.heap_end))
        (bootstrap_semihosting sbrk jemalloc stdlib m)
unfolding bootstrap_semihosting
bootstrap_semihosting-IsLoaded sbrk jemalloc stdlib js ss m moves j b fresh_j fresh_b apart =
    Returns-and_then (put_heap-Returns m (reserve_above sbrk m.heap_end moves))
      λ p n ((above, _, _), same).
        Returns-mono
          (libraries-IsLoaded jemalloc stdlib js ss m.space n p same j b fresh_j fresh_b apart)
          λ _ o (first, second, kept).
            (first, second, omega (arith, kept, above), omega (arith, kept, above))
