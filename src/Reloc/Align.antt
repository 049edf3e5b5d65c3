-- ===== src/Reloc/Align.antt =====
-- The macros ALIGN and ALIGN_UP of ututna/reloc.c as arithmetic.
use rebench.Base.{ℕ, ◌+◌, ◌-◌, ◌*◌, ◌/◌, ◌^◌, ◌<◌, ◌≡◌, arith, u64}
use rebench.Base.Bits.{bit_and_page}
use rebench.Reloc.Load.{align, align_up}

pub align-eq : (n : ℕ) → n < 2 ^ 64 → align n ≡ n / 4096 * 4096
unfolding align
align-eq n h = bit_and_page n h

pub align_up-eq : (n : ℕ) → n + 4095 < 2 ^ 64 → align_up n ≡ (n + 4095) / 4096 * 4096
unfolding align_up
align_up-eq n h =
    let small : u64 (n + 4096 - 1) ≡ n + 4095 = omega arith in rw small (bit_and_page (n + 4095) h)
