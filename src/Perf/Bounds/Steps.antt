-- ===== src/Perf/Bounds/Steps.antt =====
-- The steps of `perf_config` of ututna/perf.c, one array each.
use Prim.Native.String.{String}
use native.Mathlib.Numerals.{add-one}
use rebench.Base.{
  ℕ, suc, ◌+◌, ◌*◌, ◌≤◌, ◌<◌, ◌≡◌, refl, ap, ◌∙◌, List, ◌∷◌, arith, lt→ltb, length, length-append,
  length-set, get_elem?-set_ne, ℤ, pos, negsuc, sign_extend32, ◌>>=◌, Safe, goes_on, Holds,
  Safe-of_Holds, Safe-mono, Safe-and_then,
}
use rebench.Os.{PerfType, raw, event_open, History, Env}
use rebench.Perf.State.{Perf}
use rebench.Perf.Config.{
  preset_columns, set_ratio, strcat_headers, sprintf, opened, perf_open, preset,
}
use rebench.Perf.Text.{codes}
use rebench.Perf.Bounds.{IsRoomy, IsKept, Grown, Configured, At}
use rebench.Perf.Bounds.Columns.{preset_columns-le}

module _ {D : Type 0} (env : Env D) (I : ℤ → ℕ → History D → Type 0) (kept : IsKept I) where
  pub unchanged : (k : ℕ) (p : Perf D) → IsRoomy p → At I p → Configured I k p p
  unchanged k p h at = record {
    roomy = h;
    at_most = omega arith;
    same_begin = refl;
    same_end = refl;
    at = at;
  }

  opened-Holds :
      (type : PerfType) (event : ℕ) (p : Perf D) (result : ℤ)
      → At I p
      → Holds
          (λ _ q. Grown I 1 p q)
          (opened env type event result
            (record p { log = event_open type (sign_extend32 event) p.fd ∷ p.log }))
  opened-Holds type event p (negsuc r) h = tt
  opened-Holds type event p (pos r) h = record {
    more = refl;
    same_room = refl;
    same_headers = refl;
    same_first = refl;
    same_begin = refl;
    same_end = refl;
    at = kept.open_keeps type (sign_extend32 event) r p.fd p.n_counters p.log h;
  }

  pub perf_open-Safe :
      (type : PerfType) (event : ℕ) (p : Perf D)
      → At I p
      → Safe (λ _ q. Grown I 1 p q) (perf_open env type event p)
  unfolding perf_open
  perf_open-Safe type event p h = Safe-of_Holds _ (opened-Holds type event p _ h)

  set_ratio-Safe :
      (i v : ℕ) (p : Perf D)
      → suc i < length p.ratios
      → At I p
      → Safe (λ _ q. Grown I 0 p q) (set_ratio (suc i) v p)
  unfolding set_ratio
  set_ratio-Safe i v p fits h = rw (lt→ltb _ _ fits) (
      goes_on (record {
        more = omega arith;
        same_room = length-set p.ratios (suc i) v;
        same_headers = refl;
        same_first = get_elem?-set_ne p.ratios (suc i) 0 v (omega arith);
        same_begin = refl;
        same_end = refl;
        at = h;
      }))

  pub sprintf-Safe :
      (size : ℕ) (text : List ℕ) (p : Perf D)
      → length text < size
      → Safe (λ buf q. (buf ≡ text) × (q ≡ p)) (sprintf size text p)
  unfolding sprintf
  sprintf-Safe size text p h = rw (lt→ltb _ _ h) (goes_on (refl, refl))

  Grown-trans : (j k : ℕ) {p q r : Perf D} → Grown I j p q → Grown I k q r → Grown I (j + k) p r
  Grown-trans j k g h = record {
    more = omega (arith, g.more, h.more);
    same_room = h.same_room ∙ g.same_room;
    same_headers = h.same_headers ∙ g.same_headers;
    same_first = h.same_first ∙ g.same_first;
    same_begin = h.same_begin ∙ g.same_begin;
    same_end = h.same_end ∙ g.same_end;
    at = h.at;
  }

  preset-Safe :
      (ratio first second : ℕ) (a b c : String) (p : Perf D)
      → length (codes a) ≤ 12
      → length (codes b) ≤ 12
      → length (codes c) ≤ 5
      → IsRoomy p
      → At I p
      → p.n_counters + 2 ≤ 10
      → Safe (λ buf q. (length buf ≤ 32) × Grown I 2 p q) (preset env ratio first second a b c p)
  unfolding preset
  preset-Safe ratio first second a b c p ha hb hc h at room =
      let short = preset_columns-le a b c ha hb hc in
      Safe-and_then
        (rw add-one (set_ratio-Safe p.n_counters ratio p (omega (arith, h.ratios_room)) at))
        λ _ q hq. Safe-and_then (perf_open-Safe raw first q hq.at) λ _ r hr.
          Safe-and_then (perf_open-Safe raw second r hr.at) λ _ s hs.
            Safe-mono (sprintf-Safe 128 (preset_columns a b c) s (omega arith))
              λ buf t ht. (rw ht.0 short, rw ht.1 (Grown-trans 1 1 (Grown-trans 0 1 hq hr) hs))

  pub strcat_headers-Safe :
      (k : ℕ) (buf : List ℕ) (p q : Perf D)
      → IsRoomy p
      → Grown I k p q
      → length buf ≤ 19 * k
      → p.n_counters + k ≤ 10
      → Safe (λ _ r. Configured I k p r) (strcat_headers buf q)
  unfolding strcat_headers
  strcat_headers-Safe k buf p q h g short room =
      let fits : length q.headers + length buf < 1024 =
        omega (arith, h.headers_fit, ap length g.same_headers) in
      rw (lt→ltb _ _ fits) (
        goes_on (record {
          roomy = record {
            few = omega (arith, g.more);
            ratios_room = g.same_room ∙ h.ratios_room;
            headers_fit = omega (
              arith,
              h.headers_fit,
              g.more,
              ap length g.same_headers,
              length-append q.headers buf,
            );
            first_plain = g.same_first ∙ h.first_plain;
          };
          at_most = omega (arith, g.more);
          same_begin = g.same_begin;
          same_end = g.same_end;
          at = g.at;
        }))

  -- A preset that fits: two opens, and a column head of at most 32 characters.
  pub preset_strcat-Safe :
      (ratio first second : ℕ) (a b c : String) (p : Perf D)
      → length (codes a) ≤ 12
      → length (codes b) ≤ 12
      → length (codes c) ≤ 5
      → IsRoomy p
      → At I p
      → p.n_counters + 2 ≤ 10
      → Safe
          (λ _ q. Configured I 2 p q)
          ((preset env ratio first second a b c >>= strcat_headers) p)
  preset_strcat-Safe ratio first second a b c p ha hb hc h at room =
      Safe-and_then (preset-Safe ratio first second a b c p ha hb hc h at room)
        λ buf q g. strcat_headers-Safe 2 buf p q h g.1 (omega (arith, g.0)) room
