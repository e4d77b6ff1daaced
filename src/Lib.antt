-- ===== src/Lib.antt =====
-- DarkStop: confidential stop-loss orders, held in the memory of a trusted execution environment.
--
-- The program. An owner encrypts a stop-loss policy to the enclave's key and deposits in a vault on
-- chain; the vault sends the enclave a PLACE_ORDER instruction with the ciphertext. The extension
-- (internal/extension) decrypts the policy, keeps it in its order book, and a watcher polls the FTSO
-- price feed. When the price reaches an order's trigger, the watcher reveals the trigger in a settle
-- transaction to the vault, and follows that transaction until the chain has decided it.
--
-- The files.
--   Base, with Base/Big (the integers of math/big), Base/Map (Go's maps as association lists, whose order
--     no theorem fixes), Base/Decimal (numbers as texts) and Base/Last (the last element that has a value),
--     is what the other files share.
--   Store is internal/extension/store.go: Put, Get, Delete (`remove`), MarkExecuted, OpenOrders,
--     ObservePrice, SupportedPolicies, TriggeredOrders, EffectiveTrigger and Snapshot are put, get,
--     remove, mark_executed, open_orders, observe_price, supported_policies, triggered_orders,
--     effective_trigger and snapshot. Store/Valid, Sorting, Listing, Triggers, Ratchet, Placing and
--     History prove, and Store/Examples runs, what their first lines say.
--   Policy is the reading of an order's text in internal/extension/crypto.go, with the JSON scanner that
--     it needs in Policy/Json.
--   Startup is internal/config/config.go and the start of cmd/main.go with its watcher.
--   Enclave is internal/extension/extension.go with buildResult of utils.go, and Enclave/Types is
--     pkg/types/types.go: the handlers of POST /action and GET /state. Each handler is one function on
--     the store, cut where the code returns early. Enclave/Encrypted follows an order from the client's text
--     to its settlement.
--   Watcher is internal/extension/watcher.go. Watcher/State has its state and what it calls, Exec the
--     steps on it, Chain its reads, Nonce the executor's nonces, Settle settleOnce and settleWithRetry,
--     Reconcile reconcilePending and what it calls, and Tick a tick and the ticks of Run. The other files
--     of Watcher prove: Logic and Triples are rules for steps, Broadcasts and Safety are about the
--     transactions that are sent, Serial, InFlight, Reconciled and OneAtATime about those in flight, Nonces about
--     nonces, Evidence, Unconfirmed and Unmarked about orders that are marked executed, Bumps about gas
--     prices and Ages about the age of a sample.
--   Decoder is pkg/decoder/registry.go, with RegisterDecoders of pkg/types/register.go and handleDecode of
--     internal/typesserver/server.go, whose routes are in Decoder/Routes.
--   Registration is RegisterNode of tools/pkg/fccutils/registration.go, which resumes from a state file.
--   Deploy is tools/pkg/validate: the report of the deployment checks, and the checks. Deploy/Verifying is
--     tools/cmd/verify-deploy/main.go.
--   Policy/Printing is the client's side of the text, in tools/cmd/run-test/main.go.
--   Tools is the code of tools/ that works on the chain. An action of a tool (Exec) takes the chain's state
--     and the requests that were sent so far to a result or an error, and their next values. Tools/Text has
--     texts and hexadecimal numbers, and Tools/Rules the rules for actions.
--     Support and Addresses are tools/pkg/support/support.go, with CheckTx as check_tx and its lemmas in
--     Mined.
--     Setup is tools/pkg/fccutils/extension.go; Senders has the functions of registration.go that send the
--     transactions of a machine's registration; Polling has ActionResult of tee_calls.go and what reads the
--     proof of availability; Revert is revert.go, and Diag is diag.go with the replay of
--     tools/cmd/audit-deploy/main.go.
--     Orders is tools/pkg/utils/instructions.go. Version and Deploying are
--     tools/cmd/allow-tee-version/main.go and tools/cmd/deploy-contract/main.go. RunTest is
--     tools/cmd/run-test/main.go, and Acknowledged its verifyPlaceOrderResult, put together with the
--     enclave's handler. Machine is what tools/cmd/register-tee/main.go asks of a proxy and checks (common.go
--     and tee_calls.go) before RegisterNode.
--     Granting has the contracts' promise (IsContract): a transaction that was mined without a revert has
--     done what it asks for, and nothing is taken back while a tool runs.
--
-- How the parts interact. The order book is under a lock, so a handler and the watcher are sequences of
-- its calls. The watcher's model lets any calls of the handlers (`handlers` of Env) run before each of
-- its own steps; Enclave/Calls relates actions to such calls. What is outside (go-ethereum's
-- client, abi and ECIES, the signer, tee-node's parser and hash, the clock) is a parameter that answers
-- anything, by the number of the step where the watcher asks. For the tools the chain is a state of any
-- type, which a Net's functions read and move.
--
-- Numbers. A uint64, a uint16 and a hash are natural numbers; where the code wraps, the wrap is written
-- out (TrailBps in TriggeredOrders, the int64 of a feed's age). A time is a number of nanoseconds since
-- Go's zero time. Errors of the extension keep what the code looks at and drop their text; those of the
-- tools are their texts.
--
-- Fuel. The search of reserveNonce has one round more than there are owned nonces, as every round but
-- the last passes an owned one. The printing of a number has one round more than the number, and each
-- round but the last divides it by ten; a hash is printed in 64 hexadecimal digits. ActionResult has the source's 15 rounds. The other loops are
-- structural.
--
-- Not modelled: ECIES and go-ethereum, the writing of JSON, HTTP servers, signals and logging, the
-- timing of the ticker and of timeouts, and of the tools what starts processes, posts a
-- setting or prints.
pub mod Base
pub mod Decoder
pub mod Deploy
pub mod Enclave
pub mod Policy
pub mod Registration
pub mod Startup
pub mod Store
pub mod Tools
pub mod Watcher
