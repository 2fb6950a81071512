-- ===== src/Lib.antt =====
-- ShowUp: a check-in bond application on Stellar. A participant locks a bond to reserve a seat,
-- gets it back on check-in, and loses it to the organizer and a community pool otherwise. Modelled
-- here are the contract, in Rust, and the TypeScript core of the web application, under apps/web/lib:
-- the domain rules, the deposit flow with a fiat Anchor, the typed facade over the bond contract, the
-- wallet and the reservation passes.
--
-- Domain (apps/web/lib/domain). Domain/Types holds the views of events and reservations.
-- Domain/Amounts is amounts.ts: toStroops, fromStroops and splitByBps, on texts as lists of
-- character codes and bigint as a signed integer. Domain/Eligibility is eligibility.ts, and
-- Eligibility/Buckets reservation-buckets.ts. Domain/EventId is parseEventId.
-- Domain/ReservationResults is collectReservationResults. Domain/ContractErrors is errors.ts, with
-- userFacingError in UserFacing and transactionHashFromError in Hash; the latter walks objects by
-- number, since an error may be its own cause. Domain/Schemas is schemas.ts: what the schemas of the
-- create-event form accept, and the values they parse to. Domain/Schedule is event-schedule.ts: the
-- preset of a meeting that starts soon.
--
-- Anchor (apps/web/lib/anchor). Anchor/Json has JSON values and their readers of http.ts,
-- Anchor/Types and Anchor/Errors the data and errors, Anchor/Claim needsClaim and isQuoteExpired.
-- Anchor/Request is the rest of http.ts: addresses, requests and how a response is read.
-- Anchor/Discovery is sep1.ts with the home domain of config.ts, and the page's cache as state.
-- Anchor/Tokens is token-store.ts, with its Map as a list in the order of insertion. Anchor/SignIn is
-- sep10.ts: a computation over the tokens and the steps taken outside (requests, signatures, calls).
-- Anchor/Calls is sep38.ts and the requests of sep6.ts. Anchor/Machine is machine.ts:
-- depositReducer as a function of a state and an action, and `run` over a list of actions.
-- Anchor/Sep6 is the rest of sep6.ts: parsing of responses and the loop of
-- pollDepositUntilSettled, whose polls and abort signal are functions of the attempt.
-- Anchor/Session is session.ts over a storage that may be missing or throw.
--
-- Contract (apps/web/lib/contract and apps/web/lib/stellar/contract-error-code.ts).
-- Contract/ErrorCode finds the code in an error's text. Contract/Calls has the reads of index.ts
-- and the translation of errors, Contract/Mappers is mappers.ts, Contract/Writes is
-- executeVoidWrite and createEvent as runs of phases and calls, Contract/EventList is listEvents,
-- and Contract/EventLog is event-log.ts: pages, entries, and the listing of reservations. Contract
-- uses the domain's views; the machine uses the statuses that Sep6 parses.
--
-- Bond (contracts/showup-bond/src). Bond/Types and Bond/Storage are types.rs and storage.rs,
-- Bond/Entry the entry points of lib.rs over the host's storage and the token, and Bond/Runs an
-- invocation, which leaves no trace when it aborts. Bond/Agreement sets the web application's
-- eligibility and its form beside the contract's guards, each transfer's success being a hypothesis on
-- that transfer; Bond/Agreement/Due says what keeps a bond that is due.
--
-- Qr (apps/web/lib/qr). Qr/Pass is payload.ts. Qr/Scanner is use-scanner.ts as a machine: the hook's
-- refs and state, where what a start does after an await is an action with its captured generation.
--
-- Wallet (apps/web/lib/wallet). Wallet/Adapter is wallets-kit-adapter.ts with the types of port.ts:
-- connecting, reading, signing, and which error a thrown value tells.
--
-- Stellar (apps/web/lib/stellar). Stellar/Reserve is xlm-reserve.ts: the minimum balance of an
-- account, what it may spend and what it lacks. Stellar/Assets is getAccountAssets of horizon.ts, which
-- uses it.
--
-- Parameters stand for what is not in the repository: the simulated call, the wallet and the
-- network in a run, the text of a thrown value, the XDR reader of contract codes, Promise.all, the
-- RPC server's pages, and Number on a bigint; JSON.parse, Date.parse, encodeURIComponent,
-- toLowerCase, the browser's URL, fetch with the text of its response or its error, the base64 and
-- UTF-8 coders and the clock; the SDK's reader of stellar.toml and of a challenge; the answers of
-- the wallet kit and of Horizon; the parts of a date on the local clock; the contract's host
-- storage, token and authorization.
-- A model of a thrown value keeps what the code reads of it.
--
-- Bounds and fuel. toString on a number n has n + 1 rounds, each of which divides by ten. The
-- search for a hash has the four rounds of the source, and polling its maximum of attempts. The
-- pages of the event log are read for a given number of rounds; one more round than the index of
-- the last page is enough. Numbers are unbounded except where the source bounds them: the
-- arguments of create_event are an i128, u32s and u64s, and the contract's arithmetic is checked;
-- parseInt is exact below 2 ^ 53, and contract codes have 32 bits.
--
-- Not modelled: pages and components (rendering), the SDK and the generated bindings (third-party or
-- generated); the six wrappers of index.ts that only name a binding; the timer and the abort signal of
-- a request, whose effect is a fetch that throws; of the wallet, the loading of the kit, the wait for
-- WalletConnect, whose outcome is a parameter, signAuthEntry and watching for changes; the time to live
-- of the contract's storage entries; the evening presets of the schedule, calendar files and the
-- classification of transaction errors, which nothing modelled here calls.
pub mod Prelude
pub mod Domain
pub mod Anchor
pub mod Contract
pub mod Stellar
pub mod Bond
pub mod Qr
pub mod Wallet
