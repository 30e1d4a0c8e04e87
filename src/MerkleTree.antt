-- ===== src/MerkleTree.antt =====
-- `createMerkleTree` and `hashSimpleTreeLeaf` of
-- orchestrator-node/src/modules/merkle-tree/merkle-tree.service.ts. The hashes are parameters, and so
-- is OpenZeppelin's tree over the leaves.
use composable_batch_erc.Common.{ℕ, suc, ◌==◌, Bool, ◌&&◌, List, [], ◌∷◌, Option, if◌then◌else◌}
use composable_batch_erc.Common.Text.{Text}
use composable_batch_erc.UserOps.Interfaces.{PackedUserOp, MeeUserOp}

-- The details of a session: what the user granted, as one text, and the signature for it.
pub record SessionDetails : Type 0 where
  pub grant : Text
  pub session_signature : Text

-- A user operation of a quote, packed.
pub record QuotedUserOp : Type 0 where
  pub op : MeeUserOp
  pub chain_id : Text
  pub session_details : Option SessionDetails
  pub is_short_encoding : Bool

pub record LeafHashes : Type 0 where
  pub entry_point_hash : (chain_id : Text) → PackedUserOp → Text
  pub mee_user_op_hash : Text → (lower upper : ℕ) → Text
  pub mee_user_op_hash_eip712 : Text → (lower upper : ℕ) → Text

pub record MerkleTree : Type 0 where
  pub root : Text
  pub get_proof : ℕ → List Text

unfoldable pub hash_simple_tree_leaf :
    LeafHashes → (is_short is_eip712 is_trusted_payment : Bool) → QuotedUserOp → Text
hash_simple_tree_leaf hashes short eip712 trusted quoted =
    let op = quoted.op in
    let user_op_hash =
      if trusted then op.user_op_hash else hashes.entry_point_hash quoted.chain_id op.user_op in
    if short
    then user_op_hash
    else if eip712
    then hashes.mee_user_op_hash_eip712 user_op_hash op.lower_bound_timestamp
        op.upper_bound_timestamp
    else hashes.mee_user_op_hash user_op_hash op.lower_bound_timestamp op.upper_bound_timestamp

unfoldable pub leaf_hashes :
    LeafHashes → (is_eip712 is_trusted : Bool) → (index : ℕ) → List QuotedUserOp → List Text
leaf_hashes hashes eip712 trusted index [] = []
leaf_hashes hashes eip712 trusted index (quoted ∷ rest) =
    hash_simple_tree_leaf hashes quoted.is_short_encoding eip712 (index == 0 && trusted) quoted
    ∷ leaf_hashes hashes eip712 trusted (suc index) rest

unfoldable pub create_merkle_tree :
    (tree_of : List Text → MerkleTree)
    → LeafHashes
    → (is_simple is_eip712 is_trusted : Bool) → List QuotedUserOp
    → MerkleTree
create_merkle_tree tree_of hashes simple eip712 trusted ops =
    tree_of (leaf_hashes hashes (eip712 && simple) trusted 0 ops)
