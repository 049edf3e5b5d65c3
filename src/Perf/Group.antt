-- ===== src/Perf/Group.antt =====
-- The group arguments of the counters that ututna/perf.c opens.
use native.Mathlib.Numerals.{add-one}
use rebench.Base.{ℕ, zero, suc, ◌+◌, ◌<◌, ◌≡◌, refl, List, [], ◌∷◌, arith, ℤ, pos, negsuc, neg_part}
use rebench.Os.{PerfType, event_open, History}
use rebench.Perf.State.{initial}
use rebench.Perf.Config.{lead}
use rebench.Perf.Bounds.{IsRoomy, IsKept}

-- The group arguments of the calls of perf_event_open, newest first.
unfoldable pub groups : {D : Type 0} → History D → List ℤ
groups [] = []
groups (event_open type config group ∷ log) = group ∷ groups log
groups (e ∷ log) = groups log

-- What they should be for `n` counters with the leader `fd`.
unfoldable pub group_of : ℕ → ℤ → List ℤ
group_of zero fd = []
group_of (suc zero) fd = negsuc 0 ∷ []
group_of (suc (suc n)) fd = fd ∷ group_of (suc n) fd

-- `fd` is the leader, -1 as long as there is none, and the calls made opened one group.
pub record IsGrouped {D : Type 0} (fd : ℤ) (n : ℕ) (log : History D) : Type 0 where
  pub unset : n ≡ 0 → fd ≡ negsuc 0
  pub leads : 0 < n → neg_part fd ≡ 0
  pub grouped : groups log ≡ group_of n fd

module _ {D : Type 0} where
  IsGrouped-open :
      (type : PerfType) (config r : ℕ) (fd : ℤ) (n : ℕ) (log : History D)
      → IsGrouped fd n log
      → IsGrouped (lead fd r) (n + 1) (event_open type config fd ∷ log)
  unfolding groups group_of
  IsGrouped-open type config r fd zero log h = ground arith
  IsGrouped-open type config r (pos k) (suc n) log h = ground (arith, add-one (suc n))
  IsGrouped-open type config r (negsuc k) (suc n) log h =
      absurd (omega (arith, h.leads (omega arith)))

  pub IsGrouped-IsKept : IsKept {D = D} IsGrouped
  unfolding groups
  IsGrouped-IsKept = record {
    open_keeps = IsGrouped-open;
    print_keeps =
        λ format args fd n log h. record { unset = h.unset; leads = h.leads; grouped = h.grouped };
  }

  -- The start of the program meets both invariants.
  pub initial-IsGrouped : IsGrouped {D = D} (negsuc 0) 0 []
  unfolding groups group_of
  initial-IsGrouped = record {
    unset = λ _. refl;
    leads = λ h. absurd (omega arith);
    grouped = refl;
  }

  pub initial-IsRoomy : IsRoomy {D = D} initial
  initial-IsRoomy = record {
    few = omega arith;
    ratios_room = refl;
    headers_fit = omega arith;
    first_plain = refl;
  }
