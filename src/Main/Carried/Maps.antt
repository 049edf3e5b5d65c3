-- ===== src/Main/Carried/Maps.antt =====
-- The same of 603_map of ututna/main.c, with a property for each list of limits of the maps that were
-- measured.
use mathlib.Core.Path.{subst, sym}
use rebench.Base.{
  ℕ, ◌≡◌, refl, false, pure, inl, inr, some, arith, List, [], ◌∷◌, ◌==◌, Bool-cases, if◌then◌else◌,
  length, ℤ, pos, ◌*ℤ◌, ltb_ℤ, rounds,
}
use rebench.Base.Progress.{
  Goes, goes, Goes-mono, Goes-both, Goes-need_then, Goes-check, Goes-and_then,
}
use rebench.Os.{Env, History, test_map, map_ops}
use rebench.Os.Double.{Double}
use rebench.Main.State.{State, times, in_int, in_long}
use rebench.Main.Kernels.{print_map, test_const_time, run_maps, test_603_map}
use rebench.Main.Carried.{
  IsCarriedOn, ScoresTo, IsAt, Reaches, said, print_score-Reaches, begin-Reaches, end-Reaches,
  map_loop-Reaches, set_map_result-Reaches,
}
use rebench.Main.Carried.MapFields.{
  HasFields, begin-KeepsFields, end-KeepsFields, map_loop-KeepsFields, set_map_result-KeepsFields,
  print_map-KeepsFields, times-KeepsFields,
}

-- The loops for the unordered map.
abbrev pub unordered_loops : ℤ → ℤ
unordered_loops loops = if ltb_ℤ (pos 1) loops then loops *ℤ pos 10 else pos 1

-- The time limits of maps as an `int`, in front of those of the maps before, the last one first.
pub data Limits {D : Type 0} ⦃d : Double D⦄ : List (ℕ × D) → (before after : List ℤ) → Type 0 where
  no_limit : {before : List ℤ} → Limits [] before before
  limit :
      {map : ℕ} {tm : D} {rest : List (ℕ × D)} {before after : List ℤ} {a : ℤ}
      → d.to_int tm ≡ some a
      → Limits rest (a ∷ before) after
      → Limits ((map, tm) ∷ rest) before after

-- The line of a map after those with these limits.
abbrev pub MapScores :
    {D : Type 0} ⦃d : Double D⦄ → (List ℤ → History D → Type 0) → ℤ → List ℤ → ℤ → Type 0
MapScores I more [] a = ScoresTo (I []) (I (a ∷ [])) "[MAP.ORDERED]" a
MapScores I more (b ∷ bs) a = ScoresTo (I (b ∷ bs)) (I (a ∷ b ∷ bs)) "[MAP.UNORDERED]" more

-- The property holds for these maps, whose number and whose loops are in the state.
abbrev pub AfterMaps :
    {D : Type 0} → (List ℤ → History D → Type 0) → List ℕ → ℕ → ℤ → List ℤ → State D → Type 0
AfterMaps I ptrs slot more bs s = IsAt (I bs) ptrs slot s × HasFields (length bs) more s

-- The maps have these limits, and the property holds for them.
abbrev Measured :
    {D : Type 0} ⦃d : Double D⦄
    → (List ℤ → History D → Type 0)
    → List ℕ
    → ℕ
    → List (ℕ × D)
    → List ℤ
    → State D
    → Type 0
Measured I ptrs slot maps bs t =
    (limits : List ℤ) × Limits maps bs limits × IsAt (I limits) ptrs slot t

module _ {D E : Type 0} ⦃d : Double D⦄ (env : Env D) (I : List ℤ → History D → Type 0)
    (keeps : (bs : List ℤ) → IsCarriedOn (I bs)) {ptrs : List ℕ} {slot : ℕ} where
  print_map-Reaches :
      (more : ℤ) (bs : List ℤ) (a : ℤ) (s : State D)
      → MapScores I more bs a
      → AfterMaps I ptrs slot more bs s
      → Reaches E
          (I (a ∷ bs))
          ptrs
          slot
          (print_map env (length bs) (if length bs == 1 then more else a) s)
  unfolding print_map
  print_map-Reaches more [] a s scores (h, _) =
      print_score-Reaches (I []) (I (a ∷ [])) "[MAP.ORDERED]" _ a _ s (keeps (a ∷ [])) scores h
  print_map-Reaches more (b ∷ bs) a s scores (h, (_, same)) =
      let later : (length (b ∷ bs) == 0) ≡ false = ground arith in
      rw later (
        print_score-Reaches (I (b ∷ bs)) (I (a ∷ b ∷ bs)) "[MAP.UNORDERED]" _ s.loops_unordered _ s
          (keeps (a ∷ b ∷ bs))
          (subst (λ k. ScoresTo (I (b ∷ bs)) (I (a ∷ b ∷ bs)) "[MAP.UNORDERED]" k) (sym same)
            scores)
          h)

  print_map-Reaches_at :
      {idx : ℕ} {u : ℤ} (more : ℤ) (bs : List ℤ) (a : ℤ) (s : State D)
      → idx ≡ length bs
      → u ≡ more
      → MapScores I more bs a
      → AfterMaps I ptrs slot more bs s
      → Reaches E (I (a ∷ bs)) ptrs slot (print_map env idx (if idx == 1 then u else a) s)
  print_map-Reaches_at more bs a s is_idx is_more scores h =
      rw (is_idx, is_more) (print_map-Reaches more bs a s scores h)

  test_const_time-Reaches :
      (map : ℕ) (tm : D) (more : ℤ) (bs : List ℤ) (a : ℤ) (s : State D)
      → MapScores I more bs a
      → AfterMaps I ptrs slot more bs s
      → d.to_int tm ≡ some a
      → Goes E (λ _ t. AfterMaps I ptrs slot more (a ∷ bs) t) (test_const_time env map tm s)
  unfolding test_const_time
  test_const_time-Reaches map tm more bs a s scores (h, (idx, same)) is =
      let loops = if s.test_map_idx == 1 then s.loops_unordered else a in
      let fields : HasFields (length bs) more s = (idx, same) in
      rw is (
        Goes-and_then
          (Goes-both (begin-Reaches env (I bs) (keeps bs) s h) (begin-KeepsFields env s fields))
          λ _ t (i, f).
            Goes-and_then
              (Goes-both (map_loop-Reaches env (I bs) (keeps bs) map (rounds loops) 0 t i)
                (map_loop-KeepsFields env map (rounds loops) 0 t f))
              λ n u (j, g).
                Goes-and_then
                  (Goes-both (end-Reaches env (I bs) (keeps bs) u j) (end-KeepsFields env u g))
                  λ secs v ((e0, e1, k), l).
                    let w = said (map_ops map) v in
                    Goes-and_then {P = λ _ x. AfterMaps I ptrs slot more bs x}
                      (Goes-check (in_long (pos n *ℤ env.map_ops_result w.perf.log)) w
                        ((e0, e1, (keeps bs).on_map_ops map v.perf.log k), l))
                      λ _ x (m, o).
                        Goes-and_then
                          (Goes-both
                            (set_map_result-Reaches env (I bs) (keeps bs) s.test_map_idx secs x m)
                            (set_map_result-KeepsFields env s.test_map_idx secs x o))
                          λ _ y q.
                            Goes-and_then
                              (Goes-both (print_map-Reaches_at more bs a y idx same scores q)
                                (print_map-KeepsFields env s.test_map_idx loops y (q.1)))
                              λ _ z (r, (count, unchanged)).
                                goes (r, (omega (arith, count), unchanged)))

  -- It goes on only with a limit that is an `int`.
  test_const_time-Reaches_limit :
      (map : ℕ) (tm : D) (more : ℤ) (bs : List ℤ) (s : State D)
      → ((a : ℤ) → MapScores I more bs a)
      → AfterMaps I ptrs slot more bs s
      → Goes E
          (λ _ t. (a : ℤ) × (d.to_int tm ≡ some a) × AfterMaps I ptrs slot more (a ∷ bs) t)
          (test_const_time env map tm s)
  unfolding test_const_time
  test_const_time-Reaches_limit map tm more bs s scores h = Goes-need_then (d.to_int tm) _ s λ a is.
      Goes-mono (test_const_time-Reaches map tm more bs a s (scores a) h is) λ _ _ i. (a, is, i)

  run_maps-Reaches :
      (maps : List (ℕ × D)) (more : ℤ) (bs : List ℤ) (s : State D)
      → ((cs : List ℤ) (a : ℤ) → MapScores I more cs a)
      → AfterMaps I ptrs slot more bs s
      → Goes E (λ _ t. Measured I ptrs slot maps bs t) (run_maps env maps s)
  unfolding run_maps
  run_maps-Reaches [] more bs s scores h = goes (bs, no_limit, h.0)
  run_maps-Reaches ((map, tm) ∷ rest) more bs s scores h =
      Goes-and_then (test_const_time-Reaches_limit map tm more bs s (scores bs) h) λ _ t (a, is, i).
        Goes-mono (run_maps-Reaches rest more (a ∷ bs) t scores i)
          λ _ _ (limits, are, j). (limits, limit is are, j)

  -- What `times` computes is the product.
  times-AfterMaps :
      (a : ℤ) (k : ℕ) (s : State D)
      → IsAt (I []) ptrs slot s
      → Goes E (λ r t. (r ≡ a *ℤ pos k) × IsAt (I []) ptrs slot t) (times a k s)
  unfolding times
  times-AfterMaps a k s h =
      Goes-and_then {P = λ _ t. IsAt (I []) ptrs slot t} (Goes-check (in_int (a *ℤ pos k)) s h)
        λ _ t i. goes (refl, i)

  start_map-Reaches :
      (loops : ℤ) (s : State D)
      → IsAt (I []) ptrs slot s
      → Goes E
          (λ more t. (more ≡ unordered_loops loops) × IsAt (I []) ptrs slot t)
          ((if ltb_ℤ (pos 1) loops then times loops 10 else pure (pos 1)) s)
  start_map-Reaches loops s h = elim (Bool-cases (ltb_ℤ (pos 1) loops)) [
    | inl many ↦ rw many (times-AfterMaps loops 10 s h)
    | inr one ↦ rw one (goes (refl, h))
  ]

  pub test_603_map-Reaches :
      (J : History D → Type 0) (loops : ℤ) (s : State D)
      → IsCarriedOn J
      → ((bs : List ℤ) (a : ℤ) → MapScores I (unordered_loops loops) bs a)
      → ((log : History D) (limits : List ℤ)
          → Limits (env.map_runs (test_map (loops *ℤ pos 2) ∷ log)) [] limits
          → ScoresTo (I limits) J "603_MAP" loops)
      → IsAt (I []) ptrs slot s
      → Reaches E J ptrs slot (test_603_map env loops s)
  unfolding test_603_map
  test_603_map-Reaches J loops s keeps' scores last h =
      Goes-and_then (start_map-Reaches loops s h) λ more t (is_more, i).
        let u : State D = record t { test_map_idx = 0; loops_unordered = more } in
        Goes-and_then
          {P = λ r v. (r ≡ loops *ℤ pos 2) × AfterMaps I ptrs slot (unordered_loops loops) [] v}
          (Goes-mono
            (Goes-both (times-AfterMaps loops 2 u i) (times-KeepsFields loops 2 u (refl, is_more)))
            λ r v ((is, j), f). (is, (j, f)))
          λ limit v (is, ((e, f, j), fields)).
            let called = test_map limit ∷ v.perf.log in
            Goes-and_then
              (run_maps-Reaches (env.map_runs called) (unordered_loops loops) []
                (said (test_map limit) v) scores
                ((e, f, (keeps []).on_maps limit v.perf.log j), fields))
              λ _ w (limits, are, k).
                print_score-Reaches (I limits) J "603_MAP" _ loops _ w keeps'
                  (last v.perf.log limits
                    (subst (λ n. Limits (env.map_runs (test_map n ∷ v.perf.log)) [] limits) is are))
                  k
