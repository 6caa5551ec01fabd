-- ===== src/Lib.antt =====
-- Colibri, a TypeScript toolkit for Stellar: a model of its own logic, and what holds of it.
--
-- The parts, their files here, and the code they stand for:
-- - Strkey (core/strkeys/index.ts, core/common/regex/index.ts): the format checks of the nine kinds of
--   strkey, the validation behind them and the detection by prefix. The checksum tests are the SDK's and
--   a parameter.
-- - Address (core/address/muxed-to-base-account/index.ts): muxed addresses, over a record of SDK calls.
-- - Signing (core/auth/requirements/classic-operation-threshold/index.ts,
--   core/processes/envelope-signing-requirements/index.ts): Threshold is the level that an operation
--   needs, Envelope the merged requirements of a transaction or a fee bump. It uses Strkey and Address.
-- - ChannelAccounts (plugins/channel-accounts/src): Pool is `ChannelAccountsPool`, where a promise that
--   is not resolved yet is the id of the run in `waiters`, and an operation returns the waiter it
--   resolves. Plugin holds the hooks; a history of the plugin is a list of `Call`, so any interleaving of
--   runs is covered, since JavaScript switches runs only where one awaits.
-- - Toid (core/toid/index.ts) and EventId (core/event/event-id/index.ts): ids as texts. An argument is an
--   integer; a BigInt is a natural number, which does not wrap.
-- - Events (core/event): Filter is event-filter/index.ts and `isIncludedInFilters`, Event the
--   constructor of event.ts, Parsing is parsing/ledger-close-meta.ts, over any handler and any state.
--   An XDR value is known by what `toXDR("base64")` returns.
-- - Streamer (rpc-streamer/src): Effect is the effect of an awaited call (it changes the world, may set
--   the running flag and may throw), Config the constructor of streamer.ts, Modes its three starts,
--   Ledgers and Events the two variants, which fill the ingestors of a `RpcStreamer`. Events uses the
--   modules Events and EventId. Safety and Delivery hold the proofs.
-- - Sep10 (sep10/src): Transaction is what the code reads of the SDK, Challenge `fromTransaction` and
--   `fromXDR`, Guards the files of utils, Verify and Sign the rest of challenge/challenge.ts but for
--   Build, which is `build`; Jwt and Client are client/jwt.ts and client/client.ts, over a platform with
--   `fetch`, URLs and a clock. A Date is its milliseconds, or nothing where it is invalid, as one beyond
--   8.64e15 is; a time, an expiry or a tolerance is a natural number.
-- - Memoize (core/common/decorators/memoize/index.ts): the memoized method, its maps and timeouts as an
--   explicit state, Getter the memoized getter, Refinement and History the proofs. A timeout that fires
--   and a promise that is rejected are events; a promise is a number. The method itself leaves the
--   caches alone, so a method that calls itself through them is not covered.
-- - Units (core/common/helpers/format-units.ts): `fromDecimals` and `toDecimals`; Matching, Shapes,
--   Values and Expansion say what its expressions accept and what the texts stand for. A number is the
--   text that `toString` gives of it, or nothing where it is not finite.
-- - Processes (core/processes): Sdk is what the code asks of the builder and of transactions, as
--   parameters; Build is build-transaction/index.ts, SignEnvelope sign-envelope/index.ts, WrapFeeBump
--   wrap-fee-bump/index.ts, Simulate simulate-transaction/index.ts; Assemble is
--   assemble-transaction/index.ts with isSmartContractTransaction of core/common/type-guards; Send is
--   send-transaction/index.ts over a server, a clock and a wait, SignAuth is sign-auth-entries/index.ts.
--   They take arguments that are given.
-- - Pipelines: Classic is core/pipelines/classic-transaction, which runs Build, the requirements of
--   Signing and SignEnvelope, with any plugins on the input of its last step; FeeBump is
--   plugins/fee-bump/src. A step is given the outputs that it asks of the runtime.
-- - ChannelAccounts/Tools (plugins/channel-accounts/src/tools): the opening and closing of channels, over
--   a pipeline and a server, with what may throw inside their `try`; the requests for the accounts of one
--   batch are made in order.
-- - Common: tests, lists, texts, decimals, bits, association lists and results, for all parts.
--
-- A text is a list of character codes. What throws is a result, and `catch` is written out. The
-- loops of the streamer, the loop over the pages of events and the polling of a sent transaction
-- run on fuel, since a server decides when they end; `out_of_fuel` is an error that nothing
-- catches. The delivery theorems say how much fuel is enough: a round for each ledger and one more;
-- polling takes one for each interval of the time to wait. A server, a handler and a wait are
-- parameters; a theorem that needs them to behave says so in a record of hypotheses.
--
-- Not modelled: the pipelines that invoke and read
-- contracts, the creation of a pipeline, bounded arrays and XDR helpers, SEP-1, event templates and
-- standards, the views on XDR of the ledger parser and the ledger entries, assets, contracts and
-- accounts, networks, local signers and error texts; most of these only pass on calls of the SDK. Of the
-- modelled parts, the setters of the streamer's server URLs, the proxy around the channel plugin, the
-- signing of the proxy signer of its tools, Date values in the time bounds of a transaction, the encoding
-- of filters for a request and the getters that parse XDR or return a field are left out.
pub mod Common
pub mod Strkey
pub mod Address
pub mod Signing
pub mod ChannelAccounts
pub mod Toid
pub mod EventId
pub mod Events
pub mod Streamer
pub mod Sep10
pub mod Memoize
pub mod Units
pub mod Processes
pub mod Pipelines
