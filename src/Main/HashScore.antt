-- ===== src/Main/HashScore.antt =====
-- The loop of 607_hash of ututna/main.c and the calls that it makes.
use mathlib.Core.List.{append_assoc}
use mathlib.Core.Path.{subst}
use native.Mathlib.Numerals.{add-one}
use rebench.Base.{
  ℕ, zero, suc, ◌+◌, ◌*◌, ◌≤◌, ◌<◌, ◌≡◌, refl, sym, ap, ◌∙◌, ◌⊎◌, inl, inr, Bool, true, false, List,
  [], ◌∷◌, ◌++◌, arith, if◌then◌else◌, Bool-cases, length, length-append, Returns, returns,
  Returns-mono, pure, Returns-and_then,
}
use rebench.Os.{digest, Digest, History, Env}
use rebench.Os.Double.{Double}
use rebench.Main.State.{State}
use rebench.Main.Hash.{digests, any_fails, hash_loop}

module _ {D : Type 0} ⦃d : Double D⦄ (env : Env D) where
  -- None of the calls in `new`, made on top of `base`, was answered by a failure.
  abbrev pub Clean : History D → History D → Type 0
  Clean [] base = Unit
  Clean (e ∷ new) base = (env.digest_result (e ∷ (new ++ base)) ≡ false) × Clean new base

  -- `k` clean calls were made, or the last call failed.
  pub data Outcome (base : History D) (k : ℕ) (log : History D) : Bool → Type 0 where
    clean :
        (new : History D)
        → log ≡ new ++ base
        → length new ≡ k
        → Clean new base
        → Outcome base k log false
    failed : env.digest_result log ≡ true → Outcome base k log true

  Clean-append :
      (new old base : History D)
      → Clean new (old ++ base)
      → Clean old base
      → Clean (new ++ old) base
  Clean-append [] old base h k = k
  Clean-append (e ∷ new) old base (h, hs) k = (rw append_assoc h, Clean-append new old base hs k)

  Outcome-trans :
      {base log last : History D} {j k : ℕ} {b : Bool}
      → Outcome base j log false
      → Outcome log k last b
      → Outcome base (k + j) last b
  Outcome-trans (clean old e f c) (failed g) = failed g
  Outcome-trans {base} (clean old e f c) (clean new e' f' c') =
      clean (new ++ old) (e' ∙ (ap (λ l. new ++ l) e ∙ sym (append_assoc new old base)))
        (omega (arith, length-append new old, f, f'))
        (Clean-append new old base (subst (Clean new) e c') c)

  round_loops : (left : ℕ) → suc left * 4 ≡ left * 4 + 4
  round_loops left = omega arith

  any_fails_lem :
      (buffer : ℕ) (kinds : List Digest) (s : State D)
      → Returns
          (λ b t. Outcome s.perf.log (length kinds) t.perf.log b)
          (any_fails env buffer kinds s)
  unfolding any_fails
  any_fails_lem buffer [] s = returns (clean [] refl refl tt)
  any_fails_lem buffer (kind ∷ kinds) s =
      let log = digest kind buffer ∷ s.perf.log in
      elim (Bool-cases (env.digest_result log)) [
        | inl fails ↦ rw fails (returns (failed fails))
        | inr works ↦ rw works (
            Returns-mono
              (any_fails_lem buffer kinds (record s { perf = record (s.perf) { log = log } }))
              λ b t o.
                rw (← add-one (length kinds))
                  (Outcome-trans (clean (digest kind buffer ∷ []) refl refl (works, tt)) o))
      ]

  -- The value `r` of the counter after `left` rounds from `i` on, and the calls made: all clean, four
  -- in each round; or the last one failed, and ended the loop early.
  abbrev pub Rounds : History D → (left i : ℕ) → ℕ → State D → Type 0
  Rounds base left i r t =
      ((r ≡ i + left) × Outcome base (left * 4) t.perf.log false)
      ⊎ ((i ≤ r) × (r < i + left) × Outcome base (left * 4) t.perf.log true)

  next_round :
      (buffer left i : ℕ) (s t : State D) (b : Bool)
      → ((u : State D)
          → Returns (Rounds u.perf.log left (i + 1)) (hash_loop env buffer left (i + 1) u))
      → Outcome s.perf.log 4 t.perf.log b
      → Returns
          (Rounds s.perf.log (suc left) i)
          ((if b then pure i else hash_loop env buffer left (i + 1)) t)
  next_round buffer left i s t true rest (failed g) =
      returns (inr (omega arith, omega arith, failed g))
  next_round buffer left i s t false rest o = Returns-mono (rest t) λ r u q. elim q [
    | inl (e, c) ↦ inl (omega arith, rw (round_loops left) (Outcome-trans o c))
    | inr (low, high, c) ↦ inr (omega arith, omega arith, rw (round_loops left) (Outcome-trans o c))
  ]

  -- The loop always ends. Either its counter reaches the number of rounds, and four calls were
  -- made in each round, all of which worked; or a call failed, it was the last one, and the
  -- counter stays below.
  pub hash_loop_lem :
      (buffer left i : ℕ) (s : State D)
      → Returns (Rounds s.perf.log left i) (hash_loop env buffer left i s)
  unfolding hash_loop
  hash_loop_lem buffer zero i s = returns (inl (omega arith, clean [] refl refl tt))
  hash_loop_lem buffer (suc left) i s =
      Returns-and_then (any_fails_lem buffer digests s)
        λ b t o. next_round buffer left i s t b (λ u. hash_loop_lem buffer left (i + 1) u) o
