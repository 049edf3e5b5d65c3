-- ===== src/Reloc/Space.antt =====
-- The address space that ututna/reloc.c writes to: bytes at 64-bit addresses, and which of them may
-- be written. A write to any other address is a fault.
use rebench.Base.{
  ℕ, zero, suc, ◌+◌, ◌*◌, ◌/◌, ◌%◌, ◌^◌, ◌≤◌, ◌<◌, ◌≡◌, refl, ◌∙◌, ◌⊎◌, inl, Bool, true, ◌&&◌,
  arith, ltb, leb, ◌==◌, if◌then◌else◌, M, done, fault,
}

pub record Space : Type 0 where
  pub byte : ℕ → ℕ
  pub writable : ℕ → Bool

-- The test lo ≤ a < lo + n.
abbrev pub within : ℕ → ℕ → ℕ → Bool
within lo n a = leb lo a && ltb a (lo + n)

unfoldable pub all_writable : Space → (a n : ℕ) → Bool
all_writable s a zero = true
all_writable s a (suc n) = s.writable a && all_writable s (a + 1) n

-- The little-endian number in `n` bytes from `a` on, and its store.
unfoldable pub load : ℕ → ℕ → (ℕ → ℕ) → ℕ
load zero a f = 0
load (suc n) a f = f a + 256 * load n (a + 1) f

abbrev pub update : (ℕ → ℕ) → ℕ → ℕ → ℕ → ℕ
update f a v b = if a == b then v else f b

unfoldable pub store : ℕ → ℕ → ℕ → (ℕ → ℕ) → ℕ → ℕ
store zero a v f = f
store (suc n) a v f = store n (a + 1) (v / 256) (update f a (v % 256))

-- *(uint64_t *)a
abbrev pub load64 : Space → ℕ → ℕ
load64 s a = load 8 a s.byte

-- *(uint64_t *)a = v
unfoldable pub store64 : ℕ → ℕ → M Space (Unit {0})
unfolding all_writable store
store64 a v s =
    if all_writable s a 8 then done tt (record s { byte = store 8 a v s.byte }) else fault

pub store_outside : (n a v b : ℕ) (f : ℕ → ℕ) → (b < a) ⊎ (a + n ≤ b) → store n a v f b ≡ f b
unfolding store
store_outside zero a v b f h = refl
store_outside (suc n) a v b f h =
    store_outside n (a + 1) (v / 256) b (update f a (v % 256)) (ground arith) ∙ ground arith

-- The number in the lowest `n` bytes of `v`.
abbrev low_bytes : ℕ → ℕ → ℕ
low_bytes zero v = 0
low_bytes (suc n) v = v % 256 + 256 * low_bytes n (v / 256)

load-store : (n a v : ℕ) (f : ℕ → ℕ) → load n a (store n a v f) ≡ low_bytes n v
unfolding load store
load-store zero a v f = refl
load-store (suc n) a v f = ground (
  arith,
  store_outside n (a + 1) (v / 256) a (update f a (v % 256)) (inl (omega arith)),
  load-store n (a + 1) (v / 256) (update f a (v % 256)),
)

-- A `uint64_t` that is stored is read back.
pub load64-store : (a v : ℕ) (f : ℕ → ℕ) → v < 2 ^ 64 → load 8 a (store 8 a v f) ≡ v
load64-store a v f h = load-store 8 a v f ∙ all_bytes
  where
    all_bytes : low_bytes 8 v ≡ v
    all_bytes = omega arith

pub load_congr :
    (n a : ℕ) (f g : ℕ → ℕ) → ((b : ℕ) → a ≤ b → b < a + n → f b ≡ g b) → load n a f ≡ load n a g
unfolding load
load_congr zero a f g h = refl
load_congr (suc n) a f g h = omega (
  arith,
  h a (omega arith) (omega arith),
  load_congr n (a + 1) f g (λ b p q. h b (omega arith) (omega arith)),
)

pub all_writable_of :
    (s : Space) (a n : ℕ)
    → ((b : ℕ) → a ≤ b → b < a + n → s.writable b ≡ true)
    → all_writable s a n ≡ true
unfolding all_writable
all_writable_of s a zero h = refl
all_writable_of s a (suc n) h =
    rw
      (
        h a (omega arith) (omega arith),
        all_writable_of s (a + 1) n (λ b p q. h b (omega arith) (omega arith)),
      )
      refl
