-- ===== src/Boot/Libraries.antt =====
-- `bootstrap` of ututna/bootstrap.c as it is built for Android: the two extracted libraries are put
-- in place, one after the other, by the `..._init` functions that the script stdlib/stdlib writes.
use rebench.Base.{
  ℕ, ◌+◌, ◌-◌, ◌≤◌, ◌≡◌, ◌∙◌, ◌⊎◌, inl, List, [], ◌∷◌, ◌++◌, arith, All, M, ◌>>◌, Returns,
  Returns-mono, Returns-and_then,
}
use rebench.Reloc.Space.{Space, load64, load_congr}
use rebench.Reloc.Load.{Entry, slot, value, Layout, Kernel, reloc}
use rebench.Reloc.Table.{IsTable}
use rebench.Reloc.Layout.{IsLayout, IsPlaced, image, IsLoaded, Untouched}
use rebench.Reloc.Pages.{reloc-IsLoaded}

abbrev pub jemalloc_start : ℕ
jemalloc_start = 0x41000000

abbrev pub jemalloc_size : ℕ
jemalloc_size = 0x00200000

abbrev pub stdlib_start : ℕ
stdlib_start = 0x42000000

abbrev pub stdlib_size : ℕ
stdlib_size = 0x00200000

-- What the build puts into the header of a library: where its image lies in the program, where its
-- sections lie in the library, and its relocations.
pub record Library : Type 0 where
  pub bin_start : ℕ
  pub bin_size : ℕ
  pub rom_start : ℕ
  pub text_start : ℕ
  pub text_size : ℕ
  pub bss_start : ℕ
  pub bss_size : ℕ
  pub relocs : List Entry

abbrev pub layout_at : (start size : ℕ) → Library → Layout
layout_at start size lib = record {
  bin_start = lib.bin_start;
  bin_size = lib.bin_size;
  addr = start;
  size = size;
  rom_start = lib.rom_start;
  text_start = lib.text_start;
  text_size = lib.text_size;
  bss_start = lib.bss_start;
  bss_size = lib.bss_size;
}

module _ (kernel : Kernel) where
  unfoldable pub jemalloc_init : Library → M Space (Unit {0})
  unfolding reloc
  jemalloc_init lib = reloc kernel (layout_at jemalloc_start jemalloc_size lib) lib.relocs

  unfoldable pub stdlib_init : Library → M Space (Unit {0})
  unfolding reloc
  stdlib_init lib = reloc kernel (layout_at stdlib_start stdlib_size lib) lib.relocs

  unfoldable pub bootstrap : (jemalloc stdlib : Library) → M Space (Unit {0})
  unfolding jemalloc_init stdlib_init
  bootstrap jemalloc stdlib = jemalloc_init jemalloc >> stdlib_init stdlib

-- A library that the build made for an address: its parts fit, and its relocations, behind which the
-- table ends, are apart from each other and from the text.
pub record IsBuilt (start size : ℕ) (lib : Library) (es : List Entry) : Type 0 where
  pub layout : IsLayout (layout_at start size lib)
  pub last : Entry
  pub ends : last.offset ≡ 0
  pub table : lib.relocs ≡ es ++ (last ∷ [])
  pub slots : IsTable start es
  pub placed : All (IsPlaced (layout_at start size lib)) es

-- The kernel maps both libraries where they belong.
pub record MapsBoth (kernel : Kernel) : Type 0 where
  pub jemalloc : kernel.mmap_result jemalloc_start jemalloc_size ≡ jemalloc_start
  pub stdlib : kernel.mmap_result stdlib_start stdlib_size ≡ stdlib_start

-- Two ranges of addresses share none.
abbrev pub Disjoint : (a m b n : ℕ) → Type 0
Disjoint a m b n = (a + m ≤ b) ⊎ (b + n ≤ a)

module _ (kernel : Kernel) (l k : Layout) where
  slots_stay :
      (es : List Entry) (t u : Space)
      → Disjoint l.addr l.size k.addr k.size
      → Untouched kernel k t u
      → All (IsPlaced l) es
      → All (λ e. load64 t (slot l.addr e) ≡ value l.addr e) es
      → All (λ e. load64 u (slot l.addr e) ≡ value l.addr e) es
  slots_stay [] t u apart same placed h = tt
  slots_stay (e ∷ es) t u apart same (p, placed) (h, hs) = (
    load_congr 8 (slot l.addr e) u.byte t.byte (λ b lo hi. same.frame b (omega arith)) ∙ h,
    slots_stay es t u apart same placed hs,
  )

  -- What is loaded stays so while another library is loaded elsewhere.
  pub IsLoaded-stays :
      (es : List Entry) (s t u : Space)
      → Disjoint l.addr l.size k.addr k.size
      → IsLayout l
      → All (IsPlaced l) es
      → IsLoaded kernel l es s t
      → Untouched kernel k t u
      → IsLoaded kernel l es s u
  IsLoaded-stays es s t u apart layout placed h same = record {
    slots = slots_stay es t u apart same placed h.slots;
    bytes = λ b lo hi out. same.frame b (omega arith) ∙ h.bytes b lo hi out;
    sealed =
        λ on b lo hi. same.still_sealed b (omega (arith, layout.text_fits)) (h.sealed on b lo hi);
  }

  -- It does not matter that a library elsewhere was loaded before, if the image lies elsewhere too.
  pub IsLoaded-source :
      (es : List Entry) (s t u : Space)
      → Disjoint l.bin_start l.bin_size k.addr k.size
      → Untouched kernel k s t
      → IsLoaded kernel l es t u
      → IsLoaded kernel l es s u
  IsLoaded-source es s t u apart same h = record {
    slots = h.slots;
    bytes = λ b lo hi out. h.bytes b lo hi out ∙ same_image b;
    sealed = h.sealed;
  }
    where
      same_image : (b : ℕ) → image l t b ≡ image l s b
      same_image b = ground (arith, same.frame (l.bin_start + (b - (l.addr + l.rom_start))))

pub library-IsLoaded :
    (kernel : Kernel) (start size : ℕ) (lib : Library) (es : List Entry) (s : Space)
    → kernel.mmap_result start size ≡ start
    → IsBuilt start size lib es
    → Returns
        (λ _ t.
          IsLoaded kernel (layout_at start size lib) es s t
          × Untouched kernel (layout_at start size lib) s t)
        (reloc kernel (layout_at start size lib) lib.relocs s)
library-IsLoaded kernel start size lib es s maps b = rw b.table (
    reloc-IsLoaded (layout_at start size lib) b.layout kernel es b.last [] s maps b.slots b.placed
      b.ends)

-- If the kernel maps both libraries where they belong, the build made them for these addresses, and
-- the image of the second does not lie where the first is put, then `bootstrap` ends without a fault
-- with both of them loaded as their images in the program say: the second does not disturb the first.
pub bootstrap-IsLoaded :
    (kernel : Kernel) (jemalloc stdlib : Library) (js ss : List Entry) (s : Space)
    → MapsBoth kernel
    → IsBuilt jemalloc_start jemalloc_size jemalloc js
    → IsBuilt stdlib_start stdlib_size stdlib ss
    → Disjoint stdlib.bin_start stdlib.bin_size jemalloc_start jemalloc_size
    → Returns
        (λ _ t.
          IsLoaded kernel (layout_at jemalloc_start jemalloc_size jemalloc) js s t
          × IsLoaded kernel (layout_at stdlib_start stdlib_size stdlib) ss s t)
        (bootstrap kernel jemalloc stdlib s)
unfolding bootstrap
bootstrap-IsLoaded kernel jemalloc stdlib js ss s maps j b apart =
    let jl = layout_at jemalloc_start jemalloc_size jemalloc in
    let sl = layout_at stdlib_start stdlib_size stdlib in
    Returns-and_then
      (library-IsLoaded kernel jemalloc_start jemalloc_size jemalloc js s maps.jemalloc j)
      λ _ t (loaded, same).
        Returns-mono (library-IsLoaded kernel stdlib_start stdlib_size stdlib ss t maps.stdlib b)
          λ _ u (loaded', same'). (
            IsLoaded-stays kernel jl sl js s t u (inl (omega arith)) j.layout j.placed loaded same',
            IsLoaded-source kernel sl jl ss s t u apart same loaded',
          )
