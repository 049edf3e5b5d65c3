-- ===== src/Reloc/Pages.antt =====
-- The memory behind `reloc` of ututna/reloc.c: the library, its relocations and its pages.
use rebench.Base.{
  ℕ, ◌+◌, ◌%◌, ◌^◌, ◌≤◌, ◌<◌, ◌≡◌, ◌∙◌, ◌≢◌, false, List, ◌∷◌, ◌++◌, arith, ◌==◌, All, exited,
  Returns, Returns-mono,
}
use rebench.Reloc.Space.{Space}
use rebench.Reloc.Load.{Entry, align, align_up, Layout, Kernel, reloc}
use rebench.Reloc.Table.{IsTable, do_reloc-Relocated}
use rebench.Reloc.Align.{align-eq, align_up-eq}
use rebench.Reloc.Layout.{IsLayout, IsPlaced, IsLoaded, Untouched}
use rebench.Reloc.Prepared.{
  prepared, reloc-eq, prepared-image, prepared_sealed, prepared_frame, prepared_still_sealed,
  prepared_writable_frame, slots-Outside, All-CanStore,
}

-- ALIGN and ALIGN_UP give the page borders at or below and at or above an address, each less than a
-- page away, as long as the address is not in the last page of the address space.
pub align_bounds :
    (n : ℕ)
    → n + 4095 < 2 ^ 64
    → (align n % 4096 ≡ 0)
      × (align n ≤ n)
      × (n < align n + 4096)
      × (align_up n % 4096 ≡ 0)
      × (n ≤ align_up n)
      × (align_up n < n + 4096)
align_bounds n h = omega (arith, align-eq n (omega arith), align_up-eq n h)

module _ (l : Layout) (layout : IsLayout l) where
  -- If the kernel maps the library where it belongs, its parts lie within the mapping and apart
  -- from the image that is copied, and its table ends in an entry with offset 0 and has slots
  -- that are apart from each other, within the mapping and outside the pages of the text, then
  -- `reloc` ends without a fault: every slot holds the value of its entry, every other byte of
  -- the mapping is the image's, 0 in .bss and 0 where the image leaves room, and the text can no
  -- longer be written if `mprotect` works.
  pub reloc-IsLoaded :
      (kernel : Kernel) (es : List Entry) (end : Entry) (rest : List Entry) (s : Space)
      → kernel.mmap_result l.addr l.size ≡ l.addr
      → IsTable l.addr es
      → All (IsPlaced l) es
      → end.offset ≡ 0
      → Returns
          (λ _ t. IsLoaded kernel l es s t × Untouched kernel l s t)
          (reloc kernel l (es ++ (end ∷ rest)) s)
  reloc-IsLoaded kernel es end rest s e table placed last =
      let works = kernel.mprotect_works in
      rw (reloc-eq l layout kernel (es ++ (end ∷ rest)) s e) (
        Returns-mono
          (do_reloc-Relocated l.addr es end rest (prepared l layout works s) table
            (All-CanStore l layout works s es placed) last)
          λ _ t r. (
            record {
              slots = r.holds;
              bytes = λ b lo hi out. r.others b out ∙ prepared-image l layout works s b lo hi;
              sealed = λ on b lo hi. r.same_pages b ∙ prepared_sealed l layout works s b on lo hi;
            },
            record {
              frame = λ b out.
                  r.others b (slots-Outside l layout b es out placed)
                  ∙ prepared_frame l layout works s b out;
              still_sealed =
                  λ b out h. r.same_pages b ∙ prepared_still_sealed l layout works s b out h;
              same_writable =
                  λ off b out. r.same_pages b ∙ prepared_writable_frame l layout works s b off out;
            },
          ))

-- If the kernel maps it anywhere else, the program exits with its memory as it was.
pub reloc_misplaced :
    (kernel : Kernel) (l : Layout) (relocs : List Entry) (s : Space)
    → kernel.mmap_result l.addr l.size ≢ l.addr
    → reloc kernel l relocs s ≡ exited s
unfolding reloc
reloc_misplaced kernel l relocs s ne =
    let elsewhere : (kernel.mmap_result l.addr l.size == l.addr) ≡ false = ground arith in
    rw elsewhere
