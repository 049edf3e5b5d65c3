-- ===== src/Reloc/Load.antt =====
-- `do_reloc` and `reloc` of ututna/reloc.c.
use rebench.Base.{
  ℕ, ◌+◌, ◌-◌, ◌%◌, ◌^◌, Bool, ◌&&◌, ◌||◌, not, List, [], ◌∷◌, ◌==◌, if◌then◌else◌, u64, M, done,
  fault, ◌>>◌, modify, exit, crash, when, unless,
}
use Prim.Native.Nat.{bit_and}
use rebench.Reloc.Space.{Space, within, all_writable, store64}

pub record Entry : Type 0 where
  pub offset : ℕ
  pub addr : ℕ
  pub type : ℕ

-- The type code of <elf.h>, also shown in the script `reloc`.
abbrev pub r_aarch64_relative : ℕ
r_aarch64_relative = 0x403

abbrev pub page_size : ℕ
page_size = 4096

-- ALIGN(size, PAGE_SIZE), where ~(4095) is widened to 64 bits.
unfoldable pub align : ℕ → ℕ
align size = bit_and size (2 ^ 64 - page_size)

-- ALIGN_UP(size, PAGE_SIZE)
unfoldable pub align_up : ℕ → ℕ
align_up size = bit_and (u64 (size + page_size - 1)) (2 ^ 64 - page_size)

abbrev pub slot : ℕ → Entry → ℕ
slot start e = u64 (e.offset + start)

abbrev pub value : ℕ → Entry → ℕ
value start e = u64 (e.addr + (if e.type == r_aarch64_relative then start else 0))

-- The table ends at the first entry whose offset is 0; without one the loop runs off the table.
unfoldable pub do_reloc : List Entry → ℕ → M Space (Unit {0})
unfolding store64
do_reloc [] start = crash
do_reloc (e ∷ es) start =
    let rest = do_reloc es start in
    unless (e.offset == 0) (store64 (slot start e) (value start e) >> rest)

-- memcpy(dest, src, n), where source and destination do not overlap
unfoldable pub memcpy : (dest src n : ℕ) → M Space (Unit {0})
unfolding all_writable
memcpy dest src n s =
    if all_writable s dest n
    then done tt
        (record s { byte = λ a. if within dest n a then s.byte (src + (a - dest)) else s.byte a })
    else fault

-- memset(dest, c, n)
unfoldable pub memset : (dest c n : ℕ) → M Space (Unit {0})
unfolding all_writable
memset dest c n s =
    if all_writable s dest n
    then done tt (record s { byte = λ a. if within dest n a then c % 256 else s.byte a })
    else fault

-- The arguments of `reloc`, but for the table.
pub record Layout : Type 0 where
  pub bin_start : ℕ
  pub bin_size : ℕ
  pub addr : ℕ
  pub size : ℕ
  pub rom_start : ℕ
  pub text_start : ℕ
  pub text_size : ℕ
  pub bss_start : ℕ
  pub bss_size : ℕ

-- What the kernel does: the address that `mmap` returns, and whether `mprotect` works. An anonymous
-- private mapping is zero and writable.
pub record Kernel : Type 0 where
  pub mmap_result : (addr size : ℕ) → ℕ
  pub mprotect_works : Bool

abbrev pub mapped : (addr size : ℕ) → Space → Space
mapped addr size s = record {
  byte = λ a. if within addr size a then 0 else s.byte a;
  writable = λ a. within addr size a || s.writable a;
}

-- mprotect(start, len, PROT_READ | PROT_EXEC)
abbrev pub protected : (start len : ℕ) → Space → Space
protected start len s = record s { writable = λ a. not (within start len a) && s.writable a }

-- The pages around the text.
abbrev pub text_from : Layout → ℕ
text_from l = align (u64 (l.addr + l.text_start))

abbrev pub text_to : Layout → ℕ
text_to l = align_up (u64 (l.addr + l.text_start + l.text_size))

module _ (kernel : Kernel) where
  unfoldable pub reloc : Layout → List Entry → M Space (Unit {0})
  unfolding memcpy memset align align_up do_reloc
  reloc l relocs = do
    let ptr = kernel.mmap_result l.addr l.size
    unless (ptr == l.addr) exit
    modify (mapped l.addr l.size)
    memcpy (u64 (ptr + l.rom_start)) l.bin_start l.bin_size
    memset (u64 (ptr + l.bss_start)) 0 l.bss_size
    when kernel.mprotect_works
        (modify (protected (text_from l) (u64 (text_to l + 2 ^ 64 - text_from l))))
    do_reloc relocs l.addr
