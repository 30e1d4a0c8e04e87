-- ===== src/Witnesses/Samples.antt =====
-- The concrete chain, worker, user operations and answers that the other files here use.
use composable_batch_erc.Common.{ℕ, true, false, List, [], ◌∷◌, Option, none, some, ok, thrown}
use composable_batch_erc.Common.Text.{Text, codes, text_eq}
use composable_batch_erc.NonceManager.{Nonces}
use composable_batch_erc.UserOps.Interfaces.{MeeUserOp}
use composable_batch_erc.Executor.Records.{
  Context, World, Receipt, Failure, error_of, user_operation_event, ExecuteOptions,
}
use composable_batch_erc.Executor.Block.{BlockAnswers}
use composable_batch_erc.Executor.AfterExecution.{JobAnswers}

abbrev pub sample_op : Text → ℕ → MeeUserOp
sample_op hash upper_bound = record {
  user_op = record {
    sender = codes "0x01";
    nonce = 0;
    init_code = codes "0x";
    call_data = codes "0x";
    account_gas_limits = codes "0x";
    pre_verification_gas = 21000;
    gas_fees = codes "0x";
    paymaster_and_data = codes "0x";
    signature = codes "0x";
  };
  user_op_hash = hash;
  mee_user_op_hash = hash;
  lower_bound_timestamp = 0;
  upper_bound_timestamp = upper_bound;
  execution_simulation_retry_delay = none;
  max_gas_limit = 500;
  is_clean_up_user_op = false;
  eip7702_auth = none;
}

abbrev pub valid_op : MeeUserOp
valid_op = sample_op (codes "0xaa") 2000

abbrev pub expired_op : MeeUserOp
expired_op = sample_op (codes "0xbb") 900

abbrev pub both_ops : List MeeUserOp
both_ops = valid_op ∷ expired_op ∷ []

abbrev pub sample_context : Context
sample_context = record {
  chain_id = codes "8453";
  worker_address = codes "0xWorker";
  now = 1000000;
  unix_timestamp = 1000;
  wait_confirmations = 3;
  min_max_fee_per_gas = some 50;
  is_low_block_time_chain = true;
  queue_job_attempts = 3;
}

abbrev pub no_nonces : Nonces
no_nonces = record { unused_nonce_tracker_by_chain = []; used_nonce_tracker_by_chain = [] }

abbrev pub job_after : Option Text → World
job_after previous_tx_hash = record {
  calls = [];
  nonces = no_nonces;
  job = record {
    batch_gas_limit = 1000;
    mee_user_ops = both_ops;
    previous_tx_hash = previous_tx_hash;
  };
  added_jobs = [];
  sent = [];
}

abbrev pub sample_receipt : Receipt
sample_receipt = record {
  transaction_hash = codes "0xtx";
  is_reverted = false;
  events = user_operation_event (codes "0xAA") true 77 ∷ [];
}

abbrev pub refused : Failure
refused = error_of (codes "nonce too low")

abbrev pub fast_block : BlockAnswers
fast_block = record {
  sync_supported = ok true;
  providers_tried = 1;
  write_contract_sync = ok sample_receipt;
  write_contract = thrown refused;
  fast_receipt = thrown refused;
  default_receipt = ok sample_receipt;
}

abbrev pub refused_block : BlockAnswers
refused_block = record fast_block { write_contract_sync = thrown refused }

-- The first execution is refused, the retry is mined.
abbrev pub retried : JobAnswers
retried = record {
  previous_receipt = ok sample_receipt;
  fees = ok (record { max_fee_per_gas = 100; max_priority_fee_per_gas = 2 });
  rpc_nonce = ok 7;
  first_block = refused_block;
  timeout_nonce = ok 8;
  retry_nonce = ok 8;
  retry_fees = λ force. ok (record { max_fee_per_gas = 110; max_priority_fee_per_gas = 3 });
  retry_block = fast_block;
  requeue = record {
    is_faulty = λ op. text_eq op.user_op_hash (codes "0xbb");
    add_jobs = λ blocks. (blocks, ok tt);
    update_data = ok tt;
  };
}

-- The first execution is mined.
abbrev pub mined : JobAnswers
mined = record retried { first_block = fast_block }

-- The gas conditions cannot be fetched.
abbrev pub without_fees : JobAnswers
without_fees = record retried { fees = thrown (error_of (codes "no fees")) }

abbrev pub sample_options : ExecuteOptions
sample_options = record { max_fee_per_gas = 100; max_priority_fee_per_gas = 2; nonce = 7 }
