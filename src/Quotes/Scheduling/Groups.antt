-- ===== src/Quotes/Scheduling/Groups.antt =====
-- Which jobs a quote schedules on each chain.
use mathlib.Core.List.{append-nil, append_assoc}
use composable_batch_erc.Common.{
  Bool, true, false, ◌&&◌, ◌||◌, List, [], ◌∷◌, ◌++◌, Option, none, some, if◌then◌else◌, map, any,
  keep, ◌≡◌, refl, sym, ap, ◌∙◌, arith,
}
use composable_batch_erc.Common.Text.{Text, text_eq, eq_of_text_eq}
use composable_batch_erc.Common.Assoc.{lookup, insert, lookup-insert}
use composable_batch_erc.MerkleTree.{QuotedUserOp}
use composable_batch_erc.Quotes.Scheduling.{
  ScheduledJob, Groups, or_empty, or_false, push_op, user_ops_by_chain, force_execute_by_chain,
  jobs_of, scheduled_jobs,
}

abbrev pub on_chain : Text → QuotedUserOp → Bool
on_chain chain_id op = text_eq op.chain_id chain_id

abbrev pub is_clean_up_on : Text → QuotedUserOp → Bool
is_clean_up_on chain_id op = text_eq op.chain_id chain_id && op.op.is_clean_up_user_op

-- A group that is missing has no user operations, and none that is there is empty.
abbrev group_of : List QuotedUserOp → Option (List QuotedUserOp)
group_of [] = none
group_of (op ∷ ops) = some (op ∷ ops)

or_empty-group_of : (ops : List QuotedUserOp) → or_empty (group_of ops) ≡ ops
or_empty-group_of [] = refl
or_empty-group_of (op ∷ ops) = refl

group_of-append :
    (ops : List QuotedUserOp) (op : QuotedUserOp)
    → group_of (ops ++ op ∷ []) ≡ some (ops ++ op ∷ [])
group_of-append [] op = refl
group_of-append (first ∷ ops) op = refl

append_if :
    (b : Bool) (before : List QuotedUserOp) (op : QuotedUserOp) (rest : List QuotedUserOp)
    → (if b then before ++ op ∷ [] else before) ++ rest ≡ before ++ (if b then op ∷ rest else rest)
append_if true before op rest = append_assoc before (op ∷ []) rest
append_if false before op rest = refl

lookup-push_op :
    (chain_id : Text) (op : QuotedUserOp) (groups : Groups) (before : List QuotedUserOp)
    → lookup chain_id groups ≡ group_of before
    → lookup chain_id (push_op op groups)
      ≡ group_of (if on_chain chain_id op then before ++ op ∷ [] else before)
unfolding push_op
lookup-push_op chain_id op groups before h =
    rw (lookup-insert op.chain_id chain_id (or_empty (lookup op.chain_id groups) ++ op ∷ []) groups)
      (push_if (text_eq op.chain_id chain_id) (eq_of_text_eq op.chain_id chain_id))
  where
    push_if :
        (b : Bool)
        → (b ≡ true → op.chain_id ≡ chain_id)
        → (if b
            then some (or_empty (lookup op.chain_id groups) ++ op ∷ [])
            else lookup chain_id groups)
          ≡ group_of (if b then before ++ op ∷ [] else before)
    push_if true same =
        ap (λ g. some (or_empty g ++ op ∷ [])) (ap (λ k. lookup k groups) (same refl) ∙ h)
        ∙ ap (λ ops. some (ops ++ op ∷ [])) (or_empty-group_of before)
        ∙ sym (group_of-append before op)
    push_if false same = h

lookup-user_ops_by_chain :
    (chain_id : Text) (ops : List QuotedUserOp) (groups : Groups) (before : List QuotedUserOp)
    → lookup chain_id groups ≡ group_of before
    → lookup chain_id (user_ops_by_chain ops groups)
      ≡ group_of (before ++ keep (on_chain chain_id) ops)
unfolding user_ops_by_chain
lookup-user_ops_by_chain chain_id [] groups before h = h ∙ ap group_of (sym (append-nil before))
lookup-user_ops_by_chain chain_id (op ∷ ops) groups before h =
    lookup-user_ops_by_chain chain_id ops (push_op op groups)
      (if on_chain chain_id op then before ++ op ∷ [] else before)
      (lookup-push_op chain_id op groups before h)
    ∙ ap group_of (append_if (on_chain chain_id op) before op (keep (on_chain chain_id) ops))

lookup-force_execute :
    (chain_id : Text) (ops : List QuotedUserOp) (forced : List (Text × Bool))
    → or_false (lookup chain_id (force_execute_by_chain ops forced))
      ≡ (or_false (lookup chain_id forced) || any (is_clean_up_on chain_id) ops)
unfolding force_execute_by_chain
lookup-force_execute chain_id [] forced = ground arith
lookup-force_execute chain_id (op ∷ ops) forced = ground (
  arith,
  lookup-force_execute chain_id ops forced,
  lookup-force_execute chain_id ops (insert op.chain_id true forced),
  lookup-insert op.chain_id chain_id true forced,
)

-- The jobs for user operations of one chain.
abbrev pub jobs_for : Bool → List QuotedUserOp → Option (List ScheduledJob)
jobs_for forced [] = none
jobs_for forced (op ∷ ops) =
    some (map (λ op. record { mee_user_op = op; force_execute = forced }) (op ∷ ops))

abbrev jobs_in : Bool → Option (List QuotedUserOp) → Option (List ScheduledJob)
jobs_in forced none = none
jobs_in forced (some ops) =
    some (map (λ op. record { mee_user_op = op; force_execute = forced }) ops)

jobs_of_if :
    (b : Bool) (j chain_id : Text) (forced : List (Text × Bool)) (ops : List QuotedUserOp)
    (rest : Option (List ScheduledJob)) (others : Option (List QuotedUserOp))
    → (b ≡ true → j ≡ chain_id)
    → rest ≡ jobs_in (or_false (lookup chain_id forced)) others
    → (if b then jobs_in (or_false (lookup j forced)) (some ops) else rest)
      ≡ jobs_in (or_false (lookup chain_id forced)) (if b then some ops else others)
jobs_of_if true j chain_id forced ops rest others same h =
    ap (λ k. jobs_in (or_false (lookup k forced)) (some ops)) (same refl)
jobs_of_if false j chain_id forced ops rest others same h = h

lookup-jobs_of :
    (chain_id : Text) (forced : List (Text × Bool)) (groups : Groups)
    → lookup chain_id (map (jobs_of forced) groups)
      ≡ jobs_in (or_false (lookup chain_id forced)) (lookup chain_id groups)
unfolding lookup
lookup-jobs_of chain_id forced [] = refl
lookup-jobs_of chain_id forced ((j, ops) ∷ groups) =
    jobs_of_if (text_eq j chain_id) j chain_id forced ops _ _ (eq_of_text_eq j chain_id)
      (lookup-jobs_of chain_id forced groups)

jobs_in-group_of :
    (a b : Bool) (ops : List QuotedUserOp) → a ≡ b → jobs_in a (group_of ops) ≡ jobs_for b ops
jobs_in-group_of a b [] h = refl
jobs_in-group_of a b (op ∷ ops) h = ap (λ b. jobs_for b (op ∷ ops)) h

-- For each chain the jobs are those of all its user operations, in their order, and if one of these
-- is a clean-up operation all of them are executed in any case. A chain without user operations
-- has no jobs.
pub scheduled_jobs-on_chain :
    (chain_id : Text) (ops : List QuotedUserOp)
    → lookup chain_id (scheduled_jobs ops)
      ≡ jobs_for (any (is_clean_up_on chain_id) ops) (keep (on_chain chain_id) ops)
unfolding scheduled_jobs lookup
scheduled_jobs-on_chain chain_id ops =
    lookup-jobs_of chain_id (force_execute_by_chain ops []) (user_ops_by_chain ops [])
    ∙ ap (jobs_in (or_false (lookup chain_id (force_execute_by_chain ops []))))
        (lookup-user_ops_by_chain chain_id ops [] [] none_yet)
    ∙ jobs_in-group_of _ _ (keep (on_chain chain_id) ops)
        (lookup-force_execute chain_id ops [] ∙ none_forced)
  where
    none_yet : lookup {V = List QuotedUserOp} chain_id [] ≡ none
    none_yet = refl

    none_forced :
        (or_false (lookup chain_id []) || any (is_clean_up_on chain_id) ops)
        ≡ any (is_clean_up_on chain_id) ops
    none_forced = refl
