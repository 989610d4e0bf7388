-- ===== src/Lib.antt =====
-- A model of the RIF relay server (rsksmart/rif-relay-server), which relays signed requests to the
-- relay hub, and keeps its manager registered and its worker funded.
--
-- Parts and files (paths are from the repository's root):
--   * Base and its children: numbers, integers, lists and texts for all the others. Text is the list
--     of its code points.
--   * Outcome: how a call ends, as a value or an error, and the blocks of calls that pass a state on.
--   * Stored: src/StoredTransaction.ts.
--   * TxStore: src/TxStoreManager.ts over nedb, which is the parameter `Nedb`: a collection that is
--     unique in its key, with the laws of its queries and writes. TxStore.Log is a concrete database
--     that meets them.
--   * Keys: src/KeyManager.ts; Keystore is its constructor, with the file of the seed. Wallets, hashes
--     and the derivation of keys are parameters.
--   * TxManager: src/TransactionManager.ts. The node is the parameter `Node`, which answers the n-th
--     call of each kind as it likes, or rejects it; the number of calls made is part of the state
--     `World`, with the nonces, the store and the transactions broadcast. Boost and Confirm are the
--     two operations on pending transactions. Mutex has the interleavings of concurrent calls of
--     `sendTransaction` and `pollNonce` as a step relation; `resendTransaction`, which signs a nonce
--     again that was issued before, is a step there that keeps the counters.
--   * Events: src/getPastEventsForHub.ts, and the comparisons of events in src/Utils.ts.
--   * Amounts: src/AmountRequired.ts.
--   * Registration: src/RegistrationManager.ts, its state and the small operations; Methods has those
--     that call the node, the hub (the parameter `Hub`) or the transaction manager.
--   * Server: src/RelayServer.ts, its state, readiness and the scan's small operations. Replenish is
--     src/ReplenishFunction.ts and src/events/checkReplenish.ts, Worker the rounds of the worker and
--     the initialization, Requests the checks of a request, Relay the relaying of one and its
--     estimate, Queries what the server tells of itself and the polling of blocks, and Creation the
--     constructors.
--   * Envelope: src/definitions/httpEnvelopingRequest.type.ts, the request.
--   * Numbers: bignumber.js, the parameter `Numbers`, which is a type of numbers with the operations
--     that are called and the laws that the theorems rely on. Numbers.Fractions meets them.
--   * Conversions: src/Conversions.ts. Fees: the functions of src/relayServerUtils that compute a fee,
--     convert it or decide whether a request pays; the contracts of the tokens and the oracle of the
--     prices are the parameter `Market`.
--   * Http: src/HttpServer.ts, from a request to the reply; Lifecycle is its starting and stopping.
--   * Values: the values of the configuration and of requests, as JavaScript has them.
--   * Shapes: the shapes of requests in src/Utils.ts. ow's verdict on a request is part of the
--     parameter `RelayLibrary`.
--   * Configuration: `verifyServerConfiguration` and `getServerConfig` of src/ServerConfigParams.ts, over
--     the schemas of src/serverConfigParamsUtils.ts, which are data in Configuration.Schema. Joi is the
--     parameter `Joi`, which accepts nothing that the documented meaning of its rules refuses, and the
--     library config is the parameter `Config`.
--   * Commands: src/commands/Register.ts and src/commands/findWealthyAccount.ts, with `executeRegister`
--     in Execute; Start is src/commands/Start.ts, which puts the key managers, the store, the relay
--     server and the HTTP server together.
--   * Samples and ServerSamples: concrete values; StoreTests, ManagerTests, ServerTests, RelayTests,
--     WithdrawalTests, ConfigTests, CommandTests and StartTests: tests and instances of the theorems.
-- The other children of a part have its theorems.
--
-- The server's state holds the registration manager's, which holds the transaction manager's world,
-- which holds the store; an operation of an inner part runs in an outer one by `on_registration`,
-- `on_world`, `on_chain` and `on_store`. An awaited call that rejects ends the operation with an
-- error, and leaves the state as it was at that point. Within one operation the calls run one after
-- the other, as the awaits do; what other tasks do in between is modelled for the nonces only
-- (Mutex). A handler of Http runs an operation of the server, and turns its error into a reply.
--
-- Every loop is structural recursion on its list or on the number of rounds left, but for
-- `waitForRelay`, whose loop on the clock runs on fuel: one round more than the seconds of its
-- timeout, which is enough since each round sleeps for 3 seconds
-- (Commands.Waiting.wait_for_relay-IsWaited).
--
-- Not modelled: the log output, Express and its routes, the API documentation
-- (src/DocConfiguration.ts), and the delay in the alerted state. What the client library
-- (rif-relay-client) estimates and how it tells a deploy request, what ow passes, and the
-- contracts of the verifiers are the parameter `RelayLibrary`. The fields of ethers' transactions
-- that the server does not read are left out. Amounts and block numbers are natural numbers, without
-- a bound; a difference that may be negative is compared by its sum form, or is an integer. In the
-- transaction manager the products of bignumber.js with the configured factors are parameters.
pub mod Base
pub mod Stored
pub mod Outcome
pub mod TxStore
pub mod Keys
pub mod TxManager
pub mod Events
pub mod Amounts
pub mod Registration
pub mod Numbers
pub mod Conversions
pub mod Envelope
pub mod Fees
pub mod Http
pub mod Commands
pub mod Values
pub mod Shapes
pub mod Configuration
pub mod Server
pub mod Samples
pub mod StoreTests
pub mod ManagerTests
pub mod ServerSamples
pub mod ServerTests
pub mod WithdrawalTests
pub mod RelayTests
pub mod ConfigTests
pub mod CommandTests
pub mod StartTests
