-- ===== src/Reloc/Layout.antt =====
-- Where the parts of a library lie, and what the memory holds once it is loaded by `reloc` of
-- ututna/reloc.c.
use rebench.Base.{ℕ, ◌+◌, ◌-◌, ◌^◌, ◌≤◌, ◌<◌, ◌≡◌, ◌⊎◌, true, false, List, if◌then◌else◌, All}
use rebench.Reloc.Space.{Space, within, load64}
use rebench.Reloc.Load.{Entry, slot, value, Layout, Kernel, text_from, text_to}
use rebench.Reloc.Table.{Outside}

-- The parts of the library lie within the mapping, which lies within the address space and apart from
-- the image that is copied.
pub record IsLayout (l : Layout) : Type 0 where
  pub fits : l.addr + l.size + 4096 ≤ 2 ^ 64
  pub rom_fits : l.rom_start + l.bin_size ≤ l.size
  pub text_fits : l.text_start + l.text_size ≤ l.size
  pub bss_fits : l.bss_start + l.bss_size ≤ l.size
  pub image_apart : (l.bin_start + l.bin_size ≤ l.addr) ⊎ (l.addr + l.size ≤ l.bin_start)

-- The slot lies within the mapping and outside the pages of the text.
abbrev pub IsPlaced : Layout → Entry → Type 0
IsPlaced l e =
    (l.addr ≤ slot l.addr e)
    × (slot l.addr e + 8 ≤ l.addr + l.size)
    × ((slot l.addr e + 8 ≤ text_from l) ⊎ (text_to l ≤ slot l.addr e))

-- The byte that the library has at an address before its relocations are applied.
abbrev pub image : Layout → Space → ℕ → ℕ
image l s b =
    if within (l.addr + l.bss_start) l.bss_size b
    then 0
    else if within (l.addr + l.rom_start) l.bin_size b
    then s.byte (l.bin_start + (b - (l.addr + l.rom_start)))
    else 0

-- The relocated slots, the other bytes of the mapping, and the text.
pub record IsLoaded (kernel : Kernel) (l : Layout) (es : List Entry) (s t : Space) : Type 0 where
  pub slots : All (λ e. load64 t (slot l.addr e) ≡ value l.addr e) es
  pub bytes :
      (b : ℕ)
      → l.addr ≤ b
      → b < l.addr + l.size
      → All (λ e. Outside (slot l.addr e) b) es
      → t.byte b ≡ image l s b
  pub sealed :
      kernel.mprotect_works ≡ true
      → (b : ℕ) → l.addr + l.text_start ≤ b
      → b < l.addr + l.text_start + l.text_size
      → t.writable b ≡ false

-- Outside of the mapping no byte has changed, what was sealed still is, and where nothing is ever
-- protected the rest may be written as before.
pub record Untouched (kernel : Kernel) (l : Layout) (s t : Space) : Type 0 where
  pub frame : (b : ℕ) → (b < l.addr) ⊎ (l.addr + l.size ≤ b) → t.byte b ≡ s.byte b
  pub still_sealed :
      (b : ℕ) → (b < l.addr) ⊎ (l.addr + l.size ≤ b) → s.writable b ≡ false → t.writable b ≡ false
  pub same_writable :
      kernel.mprotect_works ≡ false
      → (b : ℕ) → (b < l.addr) ⊎ (l.addr + l.size ≤ b)
      → t.writable b ≡ s.writable b
