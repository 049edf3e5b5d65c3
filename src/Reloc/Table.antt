-- ===== src/Reloc/Table.antt =====
-- What `do_reloc` of ututna/reloc.c leaves in memory.
use rebench.Base.{
  ℕ, ◌+◌, ◌≤◌, ◌<◌, ◌≡◌, refl, ◌∙◌, ◌≢◌, ◌⊎◌, true, false, List, [], ◌∷◌, ◌++◌, arith, ◌==◌, All,
  done, Returns, returns, Returns-mono,
}
use rebench.Reloc.Space.{
  Space, store, load64, store64, store_outside, load64-store, load_congr, all_writable_of,
}
use rebench.Reloc.Load.{Entry, slot, value, do_reloc}

-- The address lies outside the eight bytes of a slot.
abbrev pub Outside : ℕ → ℕ → Type 0
Outside at b = (b < at) ⊎ (at + 8 ≤ b)

-- The eight bytes of a slot may be written.
abbrev pub CanStore : Space → ℕ → Type 0
CanStore s at = (b : ℕ) → at ≤ b → b < at + 8 → s.writable b ≡ true

-- Two slots share no byte.
abbrev pub Apart : ℕ → ℕ → Type 0
Apart a b = (a + 8 ≤ b) ⊎ (b + 8 ≤ a)

-- The entries are no terminators, and their slots are apart.
abbrev pub IsTable : ℕ → List Entry → Type 0
IsTable start [] = Unit
IsTable start (e ∷ es) =
    (e.offset ≢ 0) × All (λ f. Apart (slot start e) (slot start f)) es × IsTable start es

-- Every slot holds its value, no other byte has changed, and the pages may be written as before.
pub record Relocated (start : ℕ) (es : List Entry) (s t : Space) : Type 0 where
  pub holds : All (λ e. load64 t (slot start e) ≡ value start e) es
  pub others : (b : ℕ) → All (λ e. Outside (slot start e) b) es → t.byte b ≡ s.byte b
  pub same_pages : (b : ℕ) → t.writable b ≡ s.writable b

module _ (start : ℕ) where
  -- A byte of a slot that is apart from all slots is outside them.
  byte-Outside :
      (at b : ℕ) (es : List Entry)
      → All (λ f. Apart at (slot start f)) es
      → at ≤ b
      → b < at + 8
      → All (λ f. Outside (slot start f) b) es
  byte-Outside at b [] h lo hi = tt
  byte-Outside at b (e ∷ es) (h, hs) lo hi = (omega arith, byte-Outside at b es hs lo hi)

  store64-eq :
      (s : Space) (at v : ℕ)
      → CanStore s at
      → store64 at v s ≡ done tt (record s { byte = store 8 at v s.byte })
  unfolding store64
  store64-eq s at v can = rw (all_writable_of s at 8 can) refl

  Relocated-cons :
      (e : Entry) (es : List Entry) (s t : Space)
      → All (λ f. Apart (slot start e) (slot start f)) es
      → Relocated start es (record s { byte = store 8 (slot start e) (value start e) s.byte }) t
      → Relocated start (e ∷ es) s t
  Relocated-cons e es s t apart r = record {
    holds = (
      load_congr 8 (slot start e) t.byte (store 8 (slot start e) (value start e) s.byte)
            (λ b lo hi. r.others b (byte-Outside (slot start e) b es apart lo hi))
          ∙ load64-store (slot start e) (value start e) s.byte (omega arith),
      r.holds,
    );
    others = λ b (out, outs).
        r.others b outs ∙ store_outside 8 (slot start e) (value start e) b s.byte out;
    same_pages = r.same_pages;
  }

  -- For a table that ends in an entry with offset 0, whose slots are apart and may be written,
  -- `do_reloc` always ends without a fault: every slot holds the value of its entry, moved by the start
  -- of the library if its type is R_AARCH64_RELATIVE, and no other byte has changed.
  pub do_reloc-Relocated :
      (es : List Entry) (end : Entry) (rest : List Entry) (s : Space)
      → IsTable start es
      → All (λ e. CanStore s (slot start e)) es
      → end.offset ≡ 0
      → Returns (λ _ t. Relocated start es s t) (do_reloc (es ++ (end ∷ rest)) start s)
  unfolding do_reloc
  do_reloc-Relocated [] end rest s table can last =
      rw last (returns (record { holds = tt; others = λ b out. refl; same_pages = λ b. refl }))
  do_reloc-Relocated (e ∷ es) end rest s (go_on, apart, table) (can, cans) last =
      let on : (e.offset == 0) ≡ false = ground arith in
      rw (on, store64-eq s (slot start e) (value start e) can)
        (Returns-mono (do_reloc-Relocated es end rest _ table cans last)
          λ _ t r. Relocated-cons e es s t apart r)
