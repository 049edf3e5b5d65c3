-- ===== src/Reloc/Prepared.antt =====
-- The memory in which `reloc` of ututna/reloc.c starts to apply relocations.
use rebench.Base.{
  ℕ, ◌+◌, ◌-◌, ◌^◌, ◌≤◌, ◌<◌, ◌≡◌, refl, ap, ◌⊎◌, Bool, true, false, ◌&&◌, ◌||◌, not, List, [], ◌∷◌,
  arith, ◌==◌, if◌then◌else◌, All, u64, and_then, modify, when,
}
use rebench.Reloc.Space.{Space, within, all_writable, all_writable_of}
use rebench.Reloc.Load.{
  Entry, slot, do_reloc, align, align_up, memcpy, memset, Layout, Kernel, mapped, protected,
  text_from, text_to, reloc,
}
use rebench.Reloc.Table.{Outside, CanStore}
use rebench.Reloc.Align.{align-eq, align_up-eq}
use rebench.Reloc.Layout.{IsLayout, IsPlaced, image}

module _ (l : Layout) (layout : IsLayout l) where
  text_bounds :
      (text_from l ≤ l.addr + l.text_start)
      × (l.addr + l.text_start + l.text_size ≤ text_to l)
      × (text_to l < 2 ^ 64)
  text_bounds =
      let from = l.addr + l.text_start in
      let to = l.addr + l.text_start + l.text_size in
      let same_from : u64 from ≡ from = omega (arith, layout.fits, layout.text_fits) in
      let same_to : u64 to ≡ to = omega (arith, layout.fits, layout.text_fits) in
      let below = align-eq from (omega (arith, layout.fits, layout.text_fits)) in
      let above = align_up-eq to (omega (arith, layout.fits, layout.text_fits)) in
      omega (
        arith,
        below,
        above,
        ap align same_from,
        ap align_up same_to,
        layout.fits,
        layout.text_fits,
      )

  -- The address space behind the copy, the clearing of .bss and the protection of the text.
  unfoldable pub prepared : Bool → Space → Space
  prepared works s = record {
    byte = λ b.
        if within (l.addr + l.bss_start) l.bss_size b
        then 0
        else if within (l.addr + l.rom_start) l.bin_size b
        then (mapped l.addr l.size s).byte (l.bin_start + (b - (l.addr + l.rom_start)))
        else (mapped l.addr l.size s).byte b;
    writable =
        if works
        then (protected (text_from l) (u64 (text_to l + 2 ^ 64 - text_from l))
            (mapped l.addr l.size s)).writable
        else (mapped l.addr l.size s).writable;
  }

  mapped_writable :
      (s : Space) (byte : ℕ → ℕ) (at n : ℕ)
      → l.addr ≤ at
      → at + n ≤ l.addr + l.size
      → all_writable (record (mapped l.addr l.size s) { byte = byte }) at n ≡ true
  mapped_writable s byte at n lo hi =
      all_writable_of (record (mapped l.addr l.size s) { byte = byte }) at n λ b p q. ground arith

  pub reloc-eq :
      (kernel : Kernel) (relocs : List Entry) (s : Space)
      → kernel.mmap_result l.addr l.size ≡ l.addr
      → reloc kernel l relocs s ≡ do_reloc relocs l.addr (prepared kernel.mprotect_works s)
  unfolding reloc memcpy memset prepared
  reloc-eq kernel relocs s e =
      let rom = l.addr + l.rom_start in
      let bss = l.addr + l.bss_start in
      let here : (l.addr == l.addr) ≡ true = ground arith in
      let at_rom : u64 rom ≡ rom = omega (arith, layout.fits, layout.rom_fits) in
      let at_bss : u64 bss ≡ bss = omega (arith, layout.fits, layout.bss_fits) in
      let copied : ℕ → ℕ = λ a.
        if within rom l.bin_size a
        then (mapped l.addr l.size s).byte (l.bin_start + (a - rom))
        else (mapped l.addr l.size s).byte a in
      rw
        (
          e,
          here,
          at_rom,
          mapped_writable s (mapped l.addr l.size s).byte rom l.bin_size (omega arith)
              (omega (arith, layout.rom_fits)),
          at_bss,
          mapped_writable s copied bss l.bss_size (omega arith) (omega (arith, layout.bss_fits)),
        )
        (protect kernel.mprotect_works)
    where
      protect :
          (works : Bool)
          → and_then
              (when works
                (modify (protected (text_from l) (u64 (text_to l + 2 ^ 64 - text_from l))))
                (record (mapped l.addr l.size s) { byte = (prepared works s).byte }))
              (λ _. do_reloc relocs l.addr)
            ≡ do_reloc relocs l.addr (prepared works s)
      protect true = refl
      protect false = refl

  pub prepared-image :
      (works : Bool) (s : Space) (b : ℕ)
      → l.addr ≤ b
      → b < l.addr + l.size
      → (prepared works s).byte b ≡ image l s b
  unfolding prepared
  prepared-image works s b lo hi = ground (arith, layout.image_apart)

  text_length : u64 (text_to l + 2 ^ 64 - text_from l) ≡ text_to l - text_from l
  text_length = omega (arith, text_bounds)

  prepared_writable :
      (works : Bool) (s : Space) (e : Entry)
      → IsPlaced l e
      → CanStore (prepared works s) (slot l.addr e)
  unfolding prepared
  prepared_writable true s e placed b lo hi = rw text_length (in_mapping b lo hi)
    where
      in_mapping :
          (c : ℕ)
          → slot l.addr e ≤ c
          → c < slot l.addr e + 8
          → (not (within (text_from l) (text_to l - text_from l) c)
              && (within l.addr l.size c || s.writable c))
            ≡ true
      in_mapping c p q = ground (arith, placed, text_bounds)
  prepared_writable false s e placed b lo hi = ground (arith, placed)

  pub prepared_sealed :
      (works : Bool) (s : Space) (b : ℕ)
      → works ≡ true
      → l.addr + l.text_start ≤ b
      → b < l.addr + l.text_start + l.text_size
      → (prepared works s).writable b ≡ false
  unfolding prepared
  prepared_sealed true s b on lo hi = rw text_length (ground (arith, text_bounds))
  prepared_sealed false s b on lo hi = cc

  pub All-CanStore :
      (works : Bool) (s : Space) (es : List Entry)
      → All (IsPlaced l) es
      → All (λ e. CanStore (prepared works s) (slot l.addr e)) es
  All-CanStore works s [] placed = tt
  All-CanStore works s (e ∷ es) (placed, rest) =
      (prepared_writable works s e placed, All-CanStore works s es rest)

  -- If the kernel maps the library where it belongs, its parts lie within the mapping and apart

  -- Outside of the mapping nothing has changed but that text pages may be sealed.
  pub prepared_frame :
      (works : Bool) (s : Space) (b : ℕ)
      → (b < l.addr) ⊎ (l.addr + l.size ≤ b)
      → (prepared works s).byte b ≡ s.byte b
  unfolding prepared
  prepared_frame works s b out = ground (arith, layout.rom_fits, layout.bss_fits)

  pub prepared_still_sealed :
      (works : Bool) (s : Space) (b : ℕ)
      → (b < l.addr) ⊎ (l.addr + l.size ≤ b)
      → s.writable b ≡ false
      → (prepared works s).writable b ≡ false
  unfolding prepared
  prepared_still_sealed true s b out h = ground arith
  prepared_still_sealed false s b out h = ground arith

  pub prepared_writable_frame :
      (works : Bool) (s : Space) (b : ℕ)
      → works ≡ false
      → (b < l.addr) ⊎ (l.addr + l.size ≤ b)
      → (prepared works s).writable b ≡ s.writable b
  unfolding prepared
  prepared_writable_frame true s b off out = cc
  prepared_writable_frame false s b off out = ground arith

  -- A byte outside of the mapping lies outside every slot.
  pub slots-Outside :
      (b : ℕ) (es : List Entry)
      → (b < l.addr) ⊎ (l.addr + l.size ≤ b)
      → All (IsPlaced l) es
      → All (λ e. Outside (slot l.addr e) b) es
  slots-Outside b [] out placed = tt
  slots-Outside b (e ∷ es) out (p, placed) = (omega arith, slots-Outside b es out placed)
