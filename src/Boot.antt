-- ===== src/Boot.antt =====
-- ututna/bootstrap.c as it is built for semihosting: the allocator that serves the C library before
-- jemalloc is loaded, and the reservation of the addresses below the heap.
pub mod Libraries
pub mod Semihosting
use rebench.Base.{
  ◌>>=◌, ℕ, ◌+◌, ◌-◌, ◌≤◌, ◌≡◌, refl, ◌⊎◌, inl, inr, false, List, [], ◌∷◌, arith, ltb,
  if◌then◌else◌, Bool-cases, M, done, ◌>>◌, get, modify, exit, skip, pure, when, Returns, returns,
  Returns-and_then,
}

-- `bootstrap_ptr`, as an offset from the buffer, and `bootstrap_remaining`.
pub record Boot : Type 0 where
  pub ptr : ℕ
  pub remaining : ℕ

abbrev pub buffer_size : ℕ
buffer_size = 10240

abbrev pub boot : Boot
boot = record { ptr = 0; remaining = buffer_size }

unfoldable pub bootstrap_malloc : ℕ → M Boot ℕ
bootstrap_malloc size = do
  s ← get
  when (ltb s.remaining size) exit
  modify λ t. record { ptr = t.ptr + size; remaining = t.remaining - size }
  pure s.ptr

unfoldable pub bootstrap_free : ℕ → M Boot (Unit {0})
bootstrap_free ptr = skip

-- `bootstrap_realloc` and `bootstrap_calloc` give up.
unfoldable pub bootstrap_realloc : (ptr size : ℕ) → M Boot ℕ
bootstrap_realloc ptr size = exit

unfoldable pub bootstrap_calloc : (nmemb size : ℕ) → M Boot ℕ
bootstrap_calloc nmemb size = exit

-- What the C library asks for while it starts.
pub data StartCall : Type 0 where
  malloc : (size : ℕ) → StartCall
  free : (ptr : ℕ) → StartCall

-- The requests one after the other: the blocks that are handed out, each an offset and a size.
unfoldable pub serve : List StartCall → M Boot (List (ℕ × ℕ))
unfolding bootstrap_malloc bootstrap_free
serve [] = pure []
serve (malloc size ∷ requests) = do
  at ← bootstrap_malloc size
  blocks ← serve requests
  pure ((at, size) ∷ blocks)
serve (free at ∷ requests) = bootstrap_free at >> serve requests

abbrev pub demand : List StartCall → ℕ
demand [] = 0
demand (malloc size ∷ requests) = size + demand requests
demand (free at ∷ requests) = demand requests

-- The state accounts for the whole buffer.
abbrev pub Accounts : Boot → Type 0
Accounts s = s.ptr + s.remaining ≡ buffer_size

-- Blocks that follow each other from `at` on without a gap, up to `end`.
pub data Tiles : (at : ℕ) → List (ℕ × ℕ) → (end : ℕ) → Type 0 where
  no_block : {at : ℕ} → Tiles at [] at
  block :
      {at end : ℕ} {blocks : List (ℕ × ℕ)} (size : ℕ)
      → Tiles (at + size) blocks end
      → Tiles at ((at, size) ∷ blocks) end

-- If the state accounts for the whole buffer, and the sizes add up to no more than what is left,
-- every request is served, with blocks that follow each other without a gap, so that none
-- overlaps another or leaves the buffer. The pointer moves by the sizes, so a `free` gives
-- nothing back.
pub serve-Tiles :
    (requests : List StartCall) (s : Boot)
    → Accounts s
    → demand requests ≤ s.remaining
    → Returns
        (λ blocks t. Tiles s.ptr blocks t.ptr × Accounts t × (t.ptr ≡ s.ptr + demand requests))
        (serve requests s)
unfolding serve bootstrap_malloc bootstrap_free
serve-Tiles [] s h fits = returns (no_block, h, omega arith)
serve-Tiles (malloc size ∷ requests) s h fits =
    let room : ltb s.remaining size ≡ false = ground arith in
    let next : Boot = record { ptr = s.ptr + size; remaining = s.remaining - size } in
    rw room (
      Returns-and_then (serve-Tiles requests next (omega arith) (omega arith))
        λ blocks t (tiles, accounts, moved).
          returns (block size tiles, accounts, omega (arith, moved)))
serve-Tiles (free at ∷ requests) s h fits = serve-Tiles requests s h fits

abbrev pub heap_start : ℕ
heap_start = 0x44000000

-- `_sbrk` moves the end of the heap, which is the state, and returns where it was. It belongs to the
-- C library.
module _ (sbrk : ℕ → M ℕ ℕ) where
  unfoldable pub reserve : M ℕ ℕ
  reserve = do
    p ← sbrk 0x1000
    if ltb p (heap_start - 0x1000) then (do _ ← sbrk (heap_start - 0x1000 - p); sbrk 0) else pure p

  abbrev pub IsSbrk : Type 0
  IsSbrk = (incr end : ℕ) → sbrk incr end ≡ done end (end + incr)

  -- Whatever the end of the heap is at the start, if `_sbrk` moves it by what it is asked for, it
  -- ends up at HEAP_START or above, a page further on at least, and no further than needed.
  pub reserve_above :
      (end : ℕ)
      → IsSbrk
      → Returns
          (λ _ after.
            (heap_start ≤ after)
            × (end + 0x1000 ≤ after)
            × ((after ≡ heap_start) ⊎ (after ≡ end + 0x1000)))
          (reserve end)
  unfolding reserve
  reserve_above end moves = elim (Bool-cases (ltb end (heap_start - 0x1000))) [
    | inl below ↦
        rw
          (
            moves 0x1000 end,
            below,
            moves (heap_start - 0x1000 - end) (end + 0x1000),
            moves 0 (end + 0x1000 + (heap_start - 0x1000 - end)),
          )
          (returns (ground arith, ground arith, inl (ground arith)))
    | inr above ↦ rw (moves 0x1000 end, above) (returns (ground arith, omega arith, inr refl))
  ]
