-- ===== src/Executor/Start/Distinct.antt =====
-- The authorizations that a block's transaction carries.
use composable_batch_erc.Common.{
  ◌≡◌, ◌⊎◌, subst, refl, true, false, ◌||◌, List, [], ◌∷◌, none, some, arith, Bool-cases,
  Option-cases, inl, inr, All, All-map,
}
use composable_batch_erc.Common.Text.{Text, text_eq_iff, text_eq_refl}
use composable_batch_erc.UserOps.Interfaces.{MeeUserOp}
use composable_batch_erc.Executor.Start.{has, authorizations_after, authorization_list}

-- No authorization is repeated.
abbrev pub IsDistinct : List Text → Type 0
IsDistinct [] = Unit
IsDistinct (auth ∷ auths) = (has auth auths ≡ false) × IsDistinct auths

-- The user operation has no authorization, or one of the list.
abbrev pub IsAuthorizedBy : List Text → MeeUserOp → Type 0
IsAuthorizedBy auths op =
    (op.eip7702_auth ≡ none)
    ⊎ ((auth : Text) × (op.eip7702_auth ≡ some auth) × (has auth auths ≡ true))

authorizations_after-new :
    (met : List Text) (ops : List MeeUserOp) (auth : Text)
    → has auth met ≡ true
    → has auth (authorizations_after met ops) ≡ false
unfolding authorizations_after
authorizations_after-new met [] auth h = refl
authorizations_after-new met (op ∷ ops) auth h = elim (Option-cases op.eip7702_auth) [
  | inl e ↦ rw (e, authorizations_after) (authorizations_after-new met ops auth h)
  | inr (a, e) ↦ elim (Bool-cases (has a met)) [
    | inl f ↦ rw (e, authorizations_after) (rw f (authorizations_after-new met ops auth h))
    | inr f ↦
        rw (e, authorizations_after)
          (rw f (ground (arith, text_eq_iff a auth, authorizations_after-new (a ∷ met) ops auth)))
  ]
]

authorizations_after-IsDistinct :
    (met : List Text) (ops : List MeeUserOp) → IsDistinct (authorizations_after met ops)
unfolding authorizations_after
authorizations_after-IsDistinct met [] = tt
authorizations_after-IsDistinct met (op ∷ ops) = elim (Option-cases op.eip7702_auth) [
  | inl e ↦ rw (e, authorizations_after) (authorizations_after-IsDistinct met ops)
  | inr (a, e) ↦ elim (Bool-cases (has a met)) [
    | inl f ↦ rw (e, authorizations_after) (rw f (authorizations_after-IsDistinct met ops))
    | inr f ↦
        rw (e, authorizations_after)
          (rw f (
            authorizations_after-new (a ∷ met) ops a (ground (arith, text_eq_refl a)),
            authorizations_after-IsDistinct (a ∷ met) ops,
          ))
  ]
]

-- Or one that was met before.
abbrev IsMetBy : List Text → List Text → MeeUserOp → Type 0
IsMetBy met auths op =
    (op.eip7702_auth ≡ none)
    ⊎ ((auth : Text) × (op.eip7702_auth ≡ some auth) × ((has auth met || has auth auths) ≡ true))

IsMetBy-cons :
    (met auths : List Text) (a : Text) (op : MeeUserOp)
    → IsMetBy (a ∷ met) auths op
    → IsMetBy met (a ∷ auths) op
IsMetBy-cons met auths a op (inl e) = inl e
IsMetBy-cons met auths a op (inr (auth, e, h)) = inr (auth, e, ground arith)

module _ (met : List Text) (op : MeeUserOp) (ops : List MeeUserOp) where
  after-none :
      op.eip7702_auth ≡ none → authorizations_after met ops ≡ authorizations_after met (op ∷ ops)
  unfolding authorizations_after
  after-none e = rw (e, authorizations_after)

  after-again :
      (a : Text)
      → op.eip7702_auth ≡ some a
      → has a met ≡ true
      → authorizations_after met ops ≡ authorizations_after met (op ∷ ops)
  unfolding authorizations_after
  after-again a e f = rw (e, authorizations_after) (rw f)

  after-first :
      (a : Text)
      → op.eip7702_auth ≡ some a
      → has a met ≡ false
      → a ∷ authorizations_after (a ∷ met) ops ≡ authorizations_after met (op ∷ ops)
  unfolding authorizations_after
  after-first a e f = rw (e, authorizations_after) (rw f)

authorizations_after-IsMetBy :
    (met : List Text) (ops : List MeeUserOp) → All (IsMetBy met (authorizations_after met ops)) ops
authorizations_after-IsMetBy met [] = tt
authorizations_after-IsMetBy met (op ∷ ops) = elim (Option-cases op.eip7702_auth) [
  | inl e ↦
      subst (λ l. All (IsMetBy met l) (op ∷ ops)) (after-none met op ops e)
        (inl e, authorizations_after-IsMetBy met ops)
  | inr (a, e) ↦ elim (Bool-cases (has a met)) [
    | inl f ↦
        subst (λ l. All (IsMetBy met l) (op ∷ ops)) (after-again met op ops a e f)
          (inr (a, e, ground arith), authorizations_after-IsMetBy met ops)
    | inr f ↦
        subst (λ l. All (IsMetBy met l) (op ∷ ops)) (after-first met op ops a e f)
          (
            inr (a, e, ground (arith, text_eq_refl a)),
            All-map _ _ (λ op' h. IsMetBy-cons met (authorizations_after (a ∷ met) ops) a op' h) ops
                (authorizations_after-IsMetBy (a ∷ met) ops),
          )
  ]
]

-- The authorization list of a block repeats none, and holds the authorization of each of its user
-- operations that has one.
pub authorization_list-IsDistinct :
    (ops : List MeeUserOp)
    → IsDistinct (authorization_list ops) × All (IsAuthorizedBy (authorization_list ops)) ops
unfolding authorization_list
authorization_list-IsDistinct ops = (
  authorizations_after-IsDistinct [] ops,
  All-map _ _ (λ op h. h) ops (authorizations_after-IsMetBy [] ops),
)
