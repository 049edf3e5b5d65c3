-- ===== src/Perf/Table/Steps.antt =====
-- The steps of `perf_config` of ututna/perf.c and the table that they make.
use Prim.Native.String.{String}
use mathlib.Core.Path.{subst⁻¹}
use rebench.Base.{
  ◌>>=◌, ℕ, suc, ◌+◌, ◌-◌, ◌≤◌, ◌<◌, ◌≡◌, refl, sym, ap, ◌∙◌, List, [], ◌∷◌, ◌++◌, arith, lt→ltb,
  length, length-append, length-replicate, replicate, set, ℤ, pos, negsuc, sign_extend32, done,
  Safe, goes_on, Holds, Safe-of_Holds, Safe-and_then,
}
use rebench.Os.{PerfType, raw, event_open, Arg, print, Env}
use rebench.Perf.State.{Perf}
use rebench.Perf.Config.{
  lead, preset_columns, set_ratio, strcat_headers, sprintf, opened, perf_open, preset,
  type_of_option,
}
use rebench.Perf.Table.{
  Group, single, size, factors, head, events, used, all_factors, all_heads, all_events,
  opened_events, Shows,
}
use rebench.Perf.Table.Lists.{
  length-all_factors, length-head, length-all_heads, append-zero, set-append_zeros,
}

-- The variables of perf.c hold the table, with one more group that has no column heads yet.
pub record IsPending {D : Type 0} (g : Group) (gs : List Group) (p : Perf D) : Type 0 where
  pub fits : used gs + size g ≤ 10
  pub counters : p.n_counters ≡ used gs + size g
  pub ratios : p.ratios ≡ (all_factors gs ++ factors g) ++ replicate (10 - (used gs + size g)) 0
  pub headers : p.headers ≡ all_heads gs
  pub opens : opened_events p.log ≡ events g ++ all_events gs

module _ {D : Type 0} where
  -- A message changes nothing of the table.
  pub message-Shows :
      (gs : List Group) (p : Perf D) (format : String) (args : List (Arg D))
      → Shows gs p
      → Shows gs (record p { log = print format args ∷ p.log })
  unfolding opened_events
  message-Shows gs p format args h = record {
    fits = h.fits;
    counters = h.counters;
    ratios = h.ratios;
    headers = h.headers;
    opens = h.opens;
  }

  pub strcat_headers-Shows :
      (g : Group) (gs : List Group) (q : Perf D)
      → IsPending g gs q
      → Safe (λ _ r. Shows (g ∷ gs) r) (strcat_headers (head g) q)
  unfolding strcat_headers
  strcat_headers-Shows g gs q h =
      let fits : length q.headers + length (head g) < 1024 =
        omega (arith, h.fits, ap length h.headers, length-all_heads gs, length-head g) in
      rw (lt→ltb _ _ fits) (
        goes_on (record {
          fits = h.fits;
          counters = h.counters;
          ratios = h.ratios;
          headers = ap (λ hs. hs ++ head g) h.headers;
          opens = h.opens;
        }))

  pub sprintf-eq :
      (size : ℕ) (text : List ℕ) (q : Perf D)
      → length text < size
      → sprintf size text q ≡ done text q
  unfolding sprintf
  sprintf-eq size text q h = rw (lt→ltb _ _ h) refl

module _ {D : Type 0} (env : Env D) where
  -- The state behind a counter that was opened.
  abbrev pub with_counter : PerfType → ℕ → ℕ → Perf D → Perf D
  with_counter type event r p = record p {
    fd = lead p.fd r;
    n_counters = p.n_counters + 1;
    log = event_open type (sign_extend32 event) p.fd ∷ p.log;
  }

  pub perf_open-with_counter :
      (type : PerfType) (event : ℕ) (p : Perf D)
      → Safe (λ _ q. (r : ℕ) × (q ≡ with_counter type event r p)) (perf_open env type event p)
  unfolding perf_open
  perf_open-with_counter type event p = Safe-of_Holds _ (go (env.event_open_result _))
    where
      go :
          (result : ℤ)
          → Holds
              (λ _ q. (r : ℕ) × (q ≡ with_counter type event r p))
              (opened env type event result
                (record p { log = event_open type (sign_extend32 event) p.fd ∷ p.log }))
      go (pos r) = (r, refl)
      go (negsuc r) = tt

  pub with_counter-IsPending :
      (type event r : ℕ) (gs : List Group) (p : Perf D)
      → Shows gs p
      → used gs + 1 ≤ 10
      → IsPending (single type event) gs (with_counter (type_of_option type) event r p)
  unfolding opened_events
  with_counter-IsPending type event r gs p h room =
      let left : 10 - used gs ≡ suc (10 - (used gs + 1)) = omega arith in
      record {
        fits = room;
        counters = ap (λ n. n + 1) h.counters;
        ratios =
            h.ratios
            ∙ ap (λ k. all_factors gs ++ replicate {A = ℕ} k 0) left
            ∙ append-zero (all_factors gs) (10 - (used gs + 1));
        headers = h.headers;
        opens = ap (λ es. (type_of_option type, sign_extend32 event) ∷ es) h.opens;
      }

  -- The state behind the ratio of a preset.
  abbrev with_ratio : List Group → ℕ → Perf D → Perf D
  with_ratio gs v p = record p {
    ratios = (all_factors gs ++ (0 ∷ v ∷ [])) ++ replicate (10 - (used gs + 2)) 0;
  }

  set_ratio-with_ratio :
      (gs : List Group) (v : ℕ) (p : Perf D)
      → Shows gs p
      → used gs + 2 ≤ 10
      → set_ratio (p.n_counters + 1) v p ≡ done tt (with_ratio gs v p)
  unfolding set_ratio
  set_ratio-with_ratio gs v p h room =
      let behind : 10 - used gs ≡ suc (suc (10 - (used gs + 2))) = omega arith in
      let at : p.n_counters + 1 ≡ suc (length (all_factors gs)) =
        omega (arith, h.counters, length-all_factors gs) in
      let found : p.ratios ≡ all_factors gs ++ replicate (suc (suc (10 - (used gs + 2)))) 0 =
        h.ratios ∙ ap (λ k. all_factors gs ++ replicate {A = ℕ} k 0) behind in
      let fits : p.n_counters + 1 < length p.ratios = omega (
        arith,
        h.counters,
        ap length h.ratios,
        length-append (all_factors gs) (replicate (10 - used gs) 0),
        length-all_factors gs,
        length-replicate {A = ℕ} (10 - used gs) 0,
      ) in
      let stored : set p.ratios (p.n_counters + 1) v
          ≡ (all_factors gs ++ (0 ∷ v ∷ [])) ++ replicate (10 - (used gs + 2)) 0 =
        ap (λ rs. set rs (p.n_counters + 1) v) found
        ∙ ap (λ i. set (all_factors gs ++ replicate (suc (suc (10 - (used gs + 2)))) 0) i v) at
        ∙ set-append_zeros (all_factors gs) (10 - (used gs + 2)) v in
      rw (lt→ltb _ _ fits, stored) refl

  with_counters-IsPending :
      (g : Group) (ratio first second r r' : ℕ) (gs : List Group) (p : Perf D)
      → size g ≡ 2
      → factors g ≡ 0 ∷ ratio ∷ []
      → events g ≡ (raw, sign_extend32 second) ∷ (raw, sign_extend32 first) ∷ []
      → Shows gs p
      → used gs + 2 ≤ 10
      → IsPending g gs
          (with_counter raw second r' (with_counter raw first r (with_ratio gs ratio p)))
  unfolding opened_events
  with_counters-IsPending g ratio first second r r' gs p two fs es h room = record {
    fits = omega (arith, two);
    counters = omega (arith, two, h.counters);
    ratios = rw (two, fs) refl;
    headers = h.headers;
    opens = rw (es, h.opens) refl;
  }

  preset-IsPending :
      (g : Group) (ratio first second : ℕ) (a b c : String) (gs : List Group) (p : Perf D)
      → size g ≡ 2
      → factors g ≡ 0 ∷ ratio ∷ []
      → events g ≡ (raw, sign_extend32 second) ∷ (raw, sign_extend32 first) ∷ []
      → head g ≡ preset_columns a b c
      → Shows gs p
      → used gs + 2 ≤ 10
      → Safe (λ buf q. (buf ≡ head g) × IsPending g gs q) (preset env ratio first second a b c p)
  unfolding preset
  preset-IsPending g ratio first second a b c gs p two fs es hd h room =
      let short : length (preset_columns a b c) < 128 =
        omega (arith, length-head g, two, ap length hd) in
      rw (set_ratio-with_ratio gs ratio p h room) (
        Safe-and_then (perf_open-with_counter raw first (with_ratio gs ratio p)) λ _ q (r, e).
          Safe-and_then (perf_open-with_counter raw second q) λ _ t (r', e').
            rw (sprintf-eq 128 (preset_columns a b c) t short) (
              goes_on (
                sym hd,
                subst⁻¹ (IsPending g gs) (e' ∙ ap (with_counter raw second r') e)
                    (with_counters-IsPending g ratio first second r r' gs p two fs es h room),
              )))

  pub preset-Shows :
      (g : Group) (ratio first second : ℕ) (a b c : String) (gs : List Group) (p : Perf D)
      → size g ≡ 2
      → factors g ≡ 0 ∷ ratio ∷ []
      → events g ≡ (raw, sign_extend32 second) ∷ (raw, sign_extend32 first) ∷ []
      → head g ≡ preset_columns a b c
      → Shows gs p
      → used gs + 2 ≤ 10
      → Safe (λ _ q. Shows (g ∷ gs) q) ((preset env ratio first second a b c >>= strcat_headers) p)
  preset-Shows g ratio first second a b c gs p two fs es hd h room =
      Safe-and_then (preset-IsPending g ratio first second a b c gs p two fs es hd h room)
        λ buf q (text, pending). rw text (strcat_headers-Shows g gs q pending)
