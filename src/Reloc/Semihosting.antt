-- ===== src/Reloc/Semihosting.antt =====
-- `reloc` of ututna/reloc.c as it is built for semihosting: no system maps or protects memory, and the
-- library is put where the linker script leaves room.
use mathlib.Core.Path.{fun_ext}
use rebench.Base.{
  ℕ, ◌+◌, ◌≤◌, ◌<◌, ◌≡◌, refl, sym, ap, ◌∙◌, true, false, List, arith, u64, ◌==◌, M, ◌>>◌,
}
use rebench.Reloc.Space.{Space}
use rebench.Reloc.Load.{Entry, do_reloc, memcpy, memset, Layout, Kernel, mapped, reloc}

-- `ptr` is `addr`, so the test of `ptr` never fails.
unfoldable pub reloc_semihosting : Layout → List Entry → M Space (Unit {0})
unfolding memcpy memset do_reloc
reloc_semihosting l relocs = do
  memcpy (u64 (l.addr + l.rom_start)) l.bin_start l.bin_size
  memset (u64 (l.addr + l.bss_start)) 0 l.bss_size
  do_reloc relocs l.addr

-- The room for a library may be written and holds zeros, as a fresh mapping does.
pub record IsFresh (l : Layout) (s : Space) : Type 0 where
  pub zeros : (b : ℕ) → l.addr ≤ b → b < l.addr + l.size → s.byte b ≡ 0
  pub writes : (b : ℕ) → l.addr ≤ b → b < l.addr + l.size → s.writable b ≡ true

reloc-mapped :
    (kernel : Kernel) (l : Layout) (relocs : List Entry) (s : Space)
    → kernel.mmap_result l.addr l.size ≡ l.addr
    → kernel.mprotect_works ≡ false
    → reloc kernel l relocs s ≡ reloc_semihosting l relocs (mapped l.addr l.size s)
unfolding reloc reloc_semihosting
reloc-mapped kernel l relocs s e off =
    let here : (l.addr == l.addr) ≡ true = ground arith in rw (e, here, off) refl

module _ (l : Layout) (s : Space) (fresh : IsFresh l s) where
  same_byte : (b : ℕ) → (mapped l.addr l.size s).byte b ≡ s.byte b
  same_byte b = ground (arith, fresh.zeros b)

  same_writable : (b : ℕ) → (mapped l.addr l.size s).writable b ≡ s.writable b
  same_writable b = ground (arith, fresh.writes b)

  mapped-IsFresh : mapped l.addr l.size s ≡ s
  mapped-IsFresh =
      let bytes = fun_ext same_byte in
      let pages = fun_ext same_writable in λ i. record { byte = bytes i; writable = pages i }

  -- Where the room for the library is fresh, the build for semihosting does what the other one does
  -- when the kernel maps the library where it belongs and does not protect the text.
  pub reloc_semihosting-eq-reloc :
      (kernel : Kernel) (relocs : List Entry)
      → kernel.mmap_result l.addr l.size ≡ l.addr
      → kernel.mprotect_works ≡ false
      → reloc_semihosting l relocs s ≡ reloc kernel l relocs s
  reloc_semihosting-eq-reloc kernel relocs e off =
      sym (reloc-mapped kernel l relocs s e off ∙ ap (reloc_semihosting l relocs) mapped-IsFresh)
