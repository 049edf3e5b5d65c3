-- ===== src/Main/Hash.antt =====
-- ututna/main.c: 607_hash. Each round tries four digests in turn.
use rebench.Base.{
  ◌>>=◌, ◌>>◌, pure, ℕ, zero, suc, ◌+◌, Bool, true, false, List, [], ◌∷◌, if◌then◌else◌, ℤ, pos,
  eqb_ℤ, rounds, M,
}
use rebench.Os.{free, generate_data, digest, Digest, md5, sha1, sha2, crc, Env}
use rebench.Os.Double.{Double}
use rebench.Main.State.{State, say, ask, begin, end, print_score}

abbrev pub digests : List Digest
digests = md5 ∷ sha1 ∷ sha2 ∷ crc ∷ []

module _ {D : Type 0} ⦃d : Double D⦄ (env : Env D) where
  -- md5_sum_data(…) || sha1_sum_data(…) || sha2_sum_data(…) || crc_sum_data(…)
  unfoldable pub any_fails : ℕ → List Digest → M (State D) Bool
  any_fails buffer [] = pure false
  any_fails buffer (kind ∷ kinds) =
      let rest = any_fails buffer kinds in
      (do
        say (digest kind buffer)
        fails ← ask env.digest_result
        if fails then pure true else rest)

  -- The loop from `i` on, with `left` rounds to go, and the value of `i` behind it.
  unfoldable pub hash_loop : ℕ → (left i : ℕ) → M (State D) ℕ
  unfolding any_fails
  hash_loop buffer zero i = pure i
  hash_loop buffer (suc left) i =
      let rest = hash_loop buffer left (i + 1) in
      (do fails ← any_fails buffer digests; if fails then pure i else rest)

  unfoldable pub hash_score : ℕ → ℤ → D → D
  hash_score i loops secs =
      if eqb_ℤ (pos i) loops
      then d.div (d.mul (d.of_int loops) (d.of_int (pos 6))) secs
      else d.lit 0 0

  unfoldable pub test_607_hash : ℤ → M (State D) (Unit {0})
  unfolding begin hash_loop end hash_score print_score
  test_607_hash loops = do
    say (generate_data 0x5000)
    buffer ← ask env.data_result
    begin env
    i ← hash_loop buffer (rounds loops) 0
    secs ← end env
    print_score "607_HASH" (hash_score i loops secs) loops secs
    say (free buffer)
