-- ===== src/NonceManager/Laws.antt =====
-- The nonces that a worker is given.
use composable_batch_erc.Common.{
  ℕ, ◌+◌, ◌≡◌, ◌≢◌, refl, ap, ◌⊎◌, List, [], ◌∷◌, none, some, false, arith, Reply, ok, thrown,
  if◌then◌else◌, ◌&&◌, Option-cases, inl, inr,
}
use composable_batch_erc.Common.Text.{Text, to_lower_case, text_eq, text_eq_refl, text_eq_iff}
use composable_batch_erc.Common.Assoc.{lookup, insert, lookup-insert}
use composable_batch_erc.NonceManager.{
  Tracker, Nonces, with_inner_map, get_tracked, set_tracked, mark_nonce_as_used, get_cached_nonce,
  get_nonce, tracked,
}

lookup-none {ℓ} : {V : Type ℓ} (k : Text) → lookup {V = V} k [] ≡ none
unfolding lookup
lookup-none k = refl

-- A read gives what the tracker holds.
get_tracked-value : (w c : Text) (t : Tracker) → (get_tracked w c t).0 ≡ tracked w c t
unfolding get_tracked tracked lookup
get_tracked-value w c t = ground arith

-- The inner map that a read adds is empty, so no read changes what the tracker holds.
get_tracked-tracked :
    (w c w' c' : Text) (t : Tracker) → tracked w' c' (get_tracked w c t).1 ≡ tracked w' c' t
unfolding get_tracked tracked lookup
get_tracked-tracked w c w' c' t = ground (arith, lookup-insert c c' [] t, text_eq_iff c c')

-- A write changes one worker, told by its address in lower case, on one chain.
set_tracked-tracked :
    (w c w' c' : Text) (nonce : ℕ) (t : Tracker)
    → tracked w' c' (set_tracked w c nonce t) ≡ (
        if text_eq c c' && text_eq (to_lower_case w) (to_lower_case w')
        then some nonce
        else tracked w' c' t)
unfolding set_tracked tracked
set_tracked-tracked w c w' c' nonce t = elim (Option-cases (lookup c t)) [
  | inl e ↦
      rw (e, with_inner_map)
        (ground (
          arith,
          lookup-insert c c' (insert (to_lower_case w) nonce []) (insert c [] t),
          lookup-insert c c' [] t,
          lookup-insert (to_lower_case w) (to_lower_case w') nonce [],
          lookup-none {V = ℕ} (to_lower_case w'),
          text_eq_iff c c',
        ))
  | inr (inner, e) ↦
      rw (e, with_inner_map)
        (ground (
          arith,
          lookup-insert c c' (insert (to_lower_case w) nonce inner) t,
          lookup-insert (to_lower_case w) (to_lower_case w') nonce inner,
          text_eq_iff c c',
        ))
]

-- Two spellings of a worker's address.
abbrev pub SameWorker : Text → Text → Type 0
SameWorker w w' = to_lower_case w ≡ to_lower_case w'

set_tracked_self :
    (w w' c : Text) (n : ℕ) (t : Tracker)
    → SameWorker w w'
    → tracked w' c (set_tracked w c n t) ≡ some n
set_tracked_self w w' c n t h =
    rw (set_tracked-tracked w c w' c n t, h, text_eq_refl c, text_eq_refl (to_lower_case w'))

-- `markNonceAsUsed` records the nonce as used and the next one as unused, for this worker on this
-- chain, and changes what is recorded of no other worker and no other chain.
pub mark_nonce_as_used-tracked :
    (w c w' c' : Text) (n : ℕ) (s : Nonces)
    → let here = text_eq c c' && text_eq (to_lower_case w) (to_lower_case w') in
      let s' = mark_nonce_as_used w c n s in
      (tracked w' c' s'.used_nonce_tracker_by_chain
        ≡ (if here then some n else tracked w' c' s.used_nonce_tracker_by_chain))
      × (tracked w' c' s'.unused_nonce_tracker_by_chain
          ≡ (if here then some (n + 1) else tracked w' c' s.unused_nonce_tracker_by_chain))
unfolding mark_nonce_as_used
mark_nonce_as_used-tracked w c w' c' n s =
    (set_tracked-tracked w c w' c' n _, set_tracked-tracked w c w' c' (n + 1) _)

-- The cache can serve `n`: it is the unused nonce, and not the last used one.
abbrev pub CanServe : Text → Text → ℕ → Nonces → Type 0
CanServe w c n s =
    (tracked w c s.unused_nonce_tracker_by_chain ≡ some n)
    × (tracked w c s.used_nonce_tracker_by_chain ≢ some n)

mark-CanServe :
    (w w' c : Text) (n : ℕ) (s : Nonces)
    → SameWorker w w'
    → CanServe w' c (n + 1) (mark_nonce_as_used w c n s)
unfolding mark_nonce_as_used
mark-CanServe w w' c n s h = (
  set_tracked_self w w' c (n + 1) s.unused_nonce_tracker_by_chain h,
  λ e. ground (arith, set_tracked_self w w' c n s.used_nonce_tracker_by_chain h),
)

-- What `getNonce` gives from the cache, in terms of what the trackers hold.
module _ {E : Type 0} (w c : Text) (answer : Reply E ℕ) (s : Nonces) where
  get_cached_nonce-hit : (n : ℕ) → CanServe w c n s → (get_cached_nonce w c answer s).0 ≡ ok n
  unfolding get_cached_nonce
  get_cached_nonce-hit n h = ground (
    arith,
    get_tracked-value w c s.unused_nonce_tracker_by_chain,
    get_tracked-value w c s.used_nonce_tracker_by_chain,
  )

  get_cached_nonce-fresh :
      (n : ℕ) → (get_cached_nonce w c answer s).0 ≡ ok n → (answer ≡ ok n) ⊎ CanServe w c n s
  unfolding get_cached_nonce
  get_cached_nonce-fresh n h = ground (
    arith,
    get_tracked-value w c s.unused_nonce_tracker_by_chain,
    get_tracked-value w c s.used_nonce_tracker_by_chain,
  )

  -- With no forced fetch, the nonce that is given is the provider's answer, or the cached unused
  -- nonce, which is then not the last one that was marked as used.
  pub get_nonce-fresh :
      (n : ℕ) → (get_nonce w c false answer s).0 ≡ ok n → (answer ≡ ok n) ⊎ CanServe w c n s
  unfolding get_nonce
  get_nonce-fresh n h = get_cached_nonce-fresh n h

module _ {E : Type 0} (w c : Text) where
  -- The executor marks the nonce that it was given once its transaction is mined.
  unfoldable pub settle : Reply E ℕ → Nonces → Nonces
  settle (ok n) s = mark_nonce_as_used w c n s
  settle (thrown e) s = s

  -- A worker that executes one transaction at a time takes a nonce without a forced fetch and
  -- settles it, once for each answer that the provider would give.
  unfoldable pub rounds : List (Reply E ℕ) → Nonces → List (Reply E ℕ)
  unfolding settle
  rounds [] s = []
  rounds (answer ∷ answers) s =
      let (r, s') = get_nonce w c false answer s in r ∷ rounds answers (settle r s')

  unfoldable pub consecutive : ℕ → List (Reply E ℕ) → List (Reply E ℕ)
  consecutive n [] = []
  consecutive n (_ ∷ answers) = ok n ∷ consecutive (n + 1) answers

  -- From a state whose cache can serve `n`, successive rounds use n, n + 1, n + 2, …, whatever the
  -- provider would answer: no nonce is skipped or used twice.
  pub rounds-consecutive :
      (answers : List (Reply E ℕ)) (n : ℕ) (s : Nonces)
      → CanServe w c n s
      → rounds answers s ≡ consecutive n answers
  unfolding rounds consecutive get_nonce
  rounds-consecutive [] n s h = refl
  rounds-consecutive (answer ∷ answers) n s h = rw (get_cached_nonce-hit w c answer s n h) (
      ap (◌∷◌ (ok n)) (
        rounds-consecutive answers (n + 1)
          (mark_nonce_as_used w c n (get_cached_nonce w c answer s).1)
          (mark-CanServe w w c n (get_cached_nonce w c answer s).1 refl)))
