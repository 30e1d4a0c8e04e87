-- ===== src/Lib.antt =====
-- Verification of the orchestrator node of composable-batch-erc (orchestrator-node/src/modules), and
-- of the core of its SDK (sdk/src/core).
--
-- A quote is requested for a batch of user operations: the node estimates them and adds the payment
-- of its fees. When the signed quote comes back, each user operation is signed, the payment is
-- checked, and the quote is stored and given to the simulator, chain by chain. A user operation is
-- simulated and queued; the batcher packs simulated operations into blocks; a worker of the
-- executor queue takes a block, gets a nonce from the nonce manager and fees from the gas services,
-- and sends the block to the entry point through the RPC manager, which chooses a provider and
-- classifies what fails. A block that reverts is simulated again and its sound operations are
-- queued as new blocks.
--
-- Common holds what the other modules share: texts as lists of character codes, association lists
-- for maps, sorting, tests, integers and the settled values of promises. The modules and their
-- sources:
--   Errors.Patterns     executor/constants.ts, the lists of messages that tell errors apart.
--   Errors.Sanitize     common/utils/sanitize-url.ts: sanitizeUrl as a scan of the text.
--   RpcManager          rpc-manager: classify-error.ts, provider-metrics.ts and
--                       rpc-manager.service.ts (executeRequest, performHealthCheck,
--                       checkForPromotion, promoteProvider, syncProviders). The providers of a
--                       chain are a list, and a reference to one is its position.
--   NonceManager        nonce-manager/nonce-manager.service.ts: the trackers of used and unused
--                       nonces, getNonce and markNonceAsUsed.
--   UserOps             user-ops: the data of a user operation, its gas limits, and how it is packed
--                       (packUserOp, unpackPackedUserOp) with viem's operations on hex values as a
--                       parameter. Estimates is getPackedMeeUserOpWithGasEstimates of
--                       userop.service.ts with its gas limits and paymaster data, Transfers the
--                       transfers that its getUserOpTransfers and getUserOpNativeTransfers find.
--   Queues              core/queue/utils: encodeJobData and decodeJobData, which write the data of a
--                       job to a queue and read it back, with the decimal print of a bigint.
--   Simulator           simulator/simulator.processor.ts: simulateValidation and processJob.
--   EntryPoint          entry-point/utils/flat-trace-call-result.ts, the flat list of a trace's calls
--                       and which reverts in it count as handled, and simulateHandleOps of
--                       entry-point/entry-point.service.ts, which judges an execution by that list.
--   GasEstimator        gas-estimator/gas-estimator-v2.service.ts: getCurrentGasConditions, the
--                       arithmetic of getL1Gas, and in Sessions the gas limit of smart sessions.
--   Payment             payment/payment.service.ts: the user operation that pays the node.
--   MerkleTree          merkle-tree/merkle-tree.service.ts: the leaves of a quote's tree.
--   Quotes              quotes/quotes.service.ts. Request is requestQuote, with its balances in
--                       Balances and the accounts to deploy in Senders; Execute is executeQuote, with
--                       the signatures in Signatures and the simulator's jobs in Scheduling;
--                       Explorer is what getQuote reports, and Versions the test of MEE versions.
--   Storage             storage/storage.service.ts on the commands of a Redis, whose laws are
--                       hypotheses, and with common/utils/safe-json.ts on the texts of JSON, which
--                       are a parameter; Storage.Quotes relates getQuote to createQuote.
--   Sdk                 sdk/src/core: params.ts, encode.ts, batch.ts and the calls of contract.ts.
--   PriceFeeds          price-feeds/price-feeds.service.ts: prices and decimals with their cache.
--   Batcher             batcher/batcher.service.ts: tryToBatchCompletedSimulations. Limits relates
--                       its gas limits to those of the user operation service.
--   GasManager          gas-manager/gas-manager.service.ts: getGasPrice, the stored gas
--                       information, and the guard of fetchGasInfo as a step function on events.
--   Executor            executor/executor.processor.ts. Records has the state that processJob
--                       changes (storage calls, nonces, the job's data, added jobs and sent
--                       transactions); Block is executeBlock, Confirmation the storage updates for
--                       a receipt, Reverts the handling of a reverted block, Retry the new nonce
--                       and fees, AfterExecution and ProcessJob one attempt of a job.
--   Witnesses           the theorems at concrete inputs.
--
-- State is passed explicitly. What a service outside answers (an RPC provider, the gas estimator,
-- the simulation of a user operation, the queues) is an argument, `ok` or `thrown`, read only where
-- the code asks. bigint and number are natural numbers: the modelled code does not wrap them around,
-- and where it subtracts times the comparison is written with a sum; only the confirmations that
-- getQuote computes can be negative, and these are integers. Quotients of
-- counts are kept as fractions. Loops run over a list or a tree. One definition has fuel: the walk
-- from a call to its ancestor in EntryPoint.Reverts, for which the index of the call is enough, as
-- EntryPoint.Reverts.Walk proves.
--
-- Not modelled: logging and tracing, a failure of job.updateData outside
-- handleUserOpsRevertsFromBlock, the new attempts that BullMQ makes of a simulator job that
-- throws, how the asset transfers of a receipt are stored, timers, event handlers and start-up;
-- the encoding of calls and the decoding of revert data of the entry point service; costs in
-- dollars, which are floating-point numbers, and the node's signature of a quote; the
-- simulations that requestQuote asks for (simulator/simulation.service.ts, an answer here);
-- health checks and the API; the SDK's tokens and storage reads; the contracts.
pub mod Common
pub mod Errors
pub mod RpcManager
pub mod Executor
pub mod NonceManager
pub mod UserOps
pub mod Batcher
pub mod GasManager
pub mod Queues
pub mod Payment
pub mod MerkleTree
pub mod Storage
pub mod Quotes
pub mod Simulator
pub mod EntryPoint
pub mod GasEstimator
pub mod PriceFeeds
pub mod Sdk
pub mod Witnesses
