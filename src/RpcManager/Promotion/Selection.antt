-- ===== src/RpcManager/Promotion/Selection.antt =====
-- Which provider is promoted.
use composable_batch_erc.Common.{
  ℕ, suc, ◌+◌, ◌*◌, ◌≤◌, ◌<◌, ◌≡◌, ◌≢◌, ◌⊎◌, inl, inr, refl, arith, true, false, List, [], ◌∷◌,
  none, some, All, leb, get_elem?, Bool-cases, ◌==◌, ◌&&◌, ◌||◌, ◌∙◌, ap, subst,
}
use composable_batch_erc.RpcManager.Metrics.{Ratio, ratio, is_greater, is_at_least, success_rate}
use composable_batch_erc.RpcManager.Providers.{RpcProvider, RpcChainConfig}
use composable_batch_erc.RpcManager.Promotion.{
  Found, Best, find_primary_from, is_candidate, consider, select_fallback, promoted,
  check_for_promotion,
}

le-of_mul_le : (a b k : ℕ) → 0 < k → a * k ≤ b * k → a ≤ b
le-of_mul_le a b k h e = grind arith

mul_mono : (a b k : ℕ) → a ≤ b → a * k ≤ b * k
mul_mono a b k h = grind arith

cross_trans : (a b c d e f : ℕ) → 0 < d → a * d ≤ c * b → c * f ≤ e * d → a * f ≤ e * b
cross_trans a b c d e f h p q =
    le-of_mul_le (a * f) (e * b) d h
      (omega (arith, mul_mono (a * d) (c * b) f p, mul_mono (c * f) (e * d) b q))

abbrev IsRatio : Ratio → Type 0
IsRatio r = 0 < r.denominator

is_greater_trans :
    (q r s : Ratio)
    → IsRatio r
    → is_greater q r ≡ false
    → is_greater r s ≡ false
    → is_greater q s ≡ false
unfolding is_greater
is_greater_trans q r s h e k = ground (
  arith,
  cross_trans q.numerator q.denominator r.numerator r.denominator s.numerator s.denominator,
)

is_greater_asym : (q r : Ratio) → is_greater q r ≡ true → is_greater r q ≡ false
unfolding is_greater
is_greater_asym q r h = ground arith

is_greater_irrefl : (r : Ratio) → is_greater r r ≡ false
unfolding is_greater
is_greater_irrefl r = ground arith

success_rate-IsRatio : (p : RpcProvider) → IsRatio (success_rate p.metrics)
unfolding success_rate
success_rate-IsRatio p = ground arith

-- The provider stands at the position that was found.
abbrev pub StandsIn : List RpcProvider → Found → Type 0
StandsIn ps f = get_elem? ps f.index ≡ some f.provider

find_primary_from_lem :
    (index : ℕ) (ps : List RpcProvider) (f : Found)
    → find_primary_from index ps ≡ some f
    → (j : ℕ) × (f.index ≡ index + j)
      × (get_elem? ps j ≡ some f.provider)
      × (f.provider.priority ≡ 0)
unfolding find_primary_from
find_primary_from_lem index [] f h = cc
find_primary_from_lem index (p ∷ ps) f h = elim (Bool-cases (p.priority == 0)) [
  | inl e ↦ (0, ground arith, ground arith, ground arith)
  | inr e ↦
      let (j, at, stands, prime) = find_primary_from_lem (index + 1) ps f (rw e at h) in
      (suc j, omega arith, stands, prime)
]

-- A fallback that could be promoted: not the primary, with enough requests and a high enough rate.
abbrev pub IsEligible : Ratio → RpcProvider → Type 0
IsEligible threshold p = (p.priority ≢ 0) × (is_candidate threshold p ≡ true)

consider-cases :
    (threshold : Ratio) (index : ℕ) (p : RpcProvider) (best : Best)
    → (consider threshold index p best ≡ best)
      ⊎ ((consider threshold index p best ≡ record {
        fallback = some (record { index = index; provider = p });
        rate = success_rate p.metrics;
      })
          × IsEligible threshold p)
unfolding consider
consider-cases threshold index p best = elim (Bool-cases (p.priority == 0)) [
  | inl e ↦ inl (rw e)
  | inr e ↦
      elim (Bool-cases
        (is_candidate threshold p && is_greater (success_rate p.metrics) best.rate)) [
          | inl k ↦ inr (rw (e, k), (ground arith, ground arith))
          | inr k ↦ inl (rw (e, k))
        ]
]

-- The selection keeps `best`, or ends with an eligible provider of the list and its rate.
select_fallback-found :
    (threshold : Ratio) (index : ℕ) (ps : List RpcProvider) (best : Best)
    → (select_fallback threshold index ps best ≡ best)
      ⊎ ((f : Found) × (j : ℕ) × (select_fallback threshold index ps best
            ≡ record { fallback = some f; rate = success_rate f.provider.metrics })
          × (f.index ≡ index + j)
          × (get_elem? ps j ≡ some f.provider)
          × IsEligible threshold f.provider)
unfolding select_fallback
select_fallback-found threshold index [] best = inl refl
select_fallback-found threshold index (p ∷ ps) best =
    elim (select_fallback-found threshold (index + 1) ps (consider threshold index p best)) [
      | inr (f, j, e, at, stands, elig) ↦ inr (f, suc j, e, omega arith, stands, elig)
      | inl same ↦ elim (consider-cases threshold index p best) [
        | inl kept ↦ inl (same ∙ kept)
        | inr (taken, eligible) ↦
            inr
              (record { index = index; provider = p }, 0, same ∙ taken, omega arith, refl, eligible)
      ]
    ]

-- No eligible provider of the list has a rate above the selected one.
abbrev pub NoneAbove : Ratio → Ratio → RpcProvider → Type 0
NoneAbove threshold rate q =
    IsEligible threshold q → is_greater (success_rate q.metrics) rate ≡ false

consider-rate :
    (threshold : Ratio) (index : ℕ) (p : RpcProvider) (best : Best)
    → let best' = consider threshold index p best in
      (is_greater best.rate best'.rate ≡ false) × NoneAbove threshold best'.rate p
unfolding consider
consider-rate threshold index p best = ground (
  arith,
  is_greater_irrefl best.rate,
  is_greater_irrefl (success_rate p.metrics),
  is_greater_asym (success_rate p.metrics) best.rate,
)

consider-IsRatio :
    (threshold : Ratio) (index : ℕ) (p : RpcProvider) (best : Best)
    → IsRatio best.rate
    → IsRatio (consider threshold index p best).rate
unfolding consider
consider-IsRatio threshold index p best h = ground (arith, success_rate-IsRatio p)

select_fallback-max :
    (threshold : Ratio) (index : ℕ) (ps : List RpcProvider) (best : Best)
    → IsRatio best.rate
    → let rate = (select_fallback threshold index ps best).rate in
      (is_greater best.rate rate ≡ false) × All (NoneAbove threshold rate) ps
unfolding select_fallback
select_fallback-max threshold index [] best h = (is_greater_irrefl best.rate, tt)
select_fallback-max threshold index (p ∷ ps) best h =
    let best' : Best = consider threshold index p best in
    let positive : IsRatio best'.rate = consider-IsRatio threshold index p best h in
    let (kept, here) = consider-rate threshold index p best in
    let (below, rest) = select_fallback-max threshold (index + 1) ps best' positive in
    let rate : Ratio = (select_fallback threshold (index + 1) ps best').rate in
    (
      is_greater_trans best.rate best'.rate rate positive kept below,
      (
        λ e. is_greater_trans (success_rate p.metrics) best'.rate rate positive (here e) below,
        rest,
      ),
    )

is_candidate-reached :
    (threshold : Ratio) (p : RpcProvider)
    → is_candidate threshold p ≡ true
    → (10 ≤ p.metrics.total_requests)
      × (threshold.numerator * (success_rate p.metrics).denominator
          ≤ (success_rate p.metrics).numerator * threshold.denominator)
unfolding is_candidate is_at_least
is_candidate-reached threshold p h = (ground arith, ground arith)

-- What a promotion rests on.
pub record IsJustified (config : RpcChainConfig) (new old : Found) : Type 0 where
  pub old_stands : StandsIn config.providers old
  pub old_primary : old.provider.priority ≡ 0
  pub new_stands : StandsIn config.providers new
  pub not_primary : new.provider.priority ≢ 0
  pub enough_requests : 10 ≤ new.provider.metrics.total_requests
  pub enough_successes :
      config.promotion_threshold.numerator * (success_rate new.provider.metrics).denominator
      ≤ (success_rate new.provider.metrics).numerator * config.promotion_threshold.denominator
  pub best :
      All
        (NoneAbove config.promotion_threshold (success_rate new.provider.metrics))
        config.providers
  pub better :
      (is_greater (success_rate new.provider.metrics) (success_rate old.provider.metrics) ≡ true)
      ⊎ (config.failure_threshold ≤ old.provider.metrics.consecutive_failures)

module _ (config : RpcChainConfig) (new old : Found) where
  selection : Best
  selection =
      select_fallback config.promotion_threshold 0 config.providers
        (record { fallback = none; rate = ratio 0 1 })

  promoted_inv :
      check_for_promotion false config ≡ promoted new old
      → (find_primary_from 0 config.providers ≡ some old)
        × (selection.fallback ≡ some new)
        × ((is_greater selection.rate (success_rate old.provider.metrics)
              || leb config.failure_threshold old.provider.metrics.consecutive_failures)
            ≡ true)
  unfolding check_for_promotion selection
  promoted_inv h = (ground arith, ground arith, ground arith)

  selected :
      selection.fallback ≡ some new
      → (selection.rate ≡ success_rate new.provider.metrics)
        × StandsIn config.providers new
        × IsEligible config.promotion_threshold new.provider
  unfolding selection
  selected h =
      elim (select_fallback-found config.promotion_threshold 0 config.providers
        (record { fallback = none; rate = ratio 0 1 })) [
          | inl same ↦ cc (ap (λ (b : Best). b.fallback) same)
          | inr (f, j, e, at, stands, elig) ↦
              let same : f ≡ new = ground arith in
              let here : f.index ≡ j = omega arith in
              subst
                (λ (g : Found).
                  (selection.rate ≡ success_rate g.provider.metrics)
                  × StandsIn config.providers g
                  × IsEligible config.promotion_threshold g.provider)
                same (ap (λ (b : Best). b.rate) e, rw here stands, elig)
        ]

  -- Where a check decides to promote a provider in place of a primary one, both stand in the chain's
  -- list, the primary with priority 0; the promoted one is not of priority 0, has at least ten
  -- requests and a rate at or above the threshold, no other such fallback has a higher rate, and it
  -- has a higher rate than the primary unless the primary's failure count has reached the threshold.
  pub check_for_promotion-IsJustified :
      check_for_promotion false config ≡ promoted new old → IsJustified config new old
  check_for_promotion-IsJustified h =
      let (found, chosen, better) = promoted_inv h in
      let (rate, stands, elig) = selected chosen in
      let (j, at, old_stands, prime) = find_primary_from_lem 0 config.providers old found in
      let here : old.index ≡ j = omega arith in
      let (_, above) =
        select_fallback-max config.promotion_threshold 0 config.providers
          (record { fallback = none; rate = ratio 0 1 }) (omega arith) in
      record {
        old_stands = rw here old_stands;
        old_primary = prime;
        new_stands = stands;
        not_primary = elig.0;
        enough_requests = (is_candidate-reached _ _ elig.1).0;
        enough_successes = (is_candidate-reached _ _ elig.1).1;
        best = rw (← rate) (unfold selection in above);
        better = rw (← rate) (ground arith);
      }
