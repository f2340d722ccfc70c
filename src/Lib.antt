-- ===== src/Lib.antt =====
-- flow-wallet-api: the custodial wallet service's core, and what makes it correct.
--
-- The service takes HTTP requests, turns them into jobs that a pool of workers executes, and listens
-- to the events of a blockchain. Its parts and the files that model them:
--   Prelude      shared names, Boolean tests, integers, lists, and Go strings as lists of bytes
--   Errors       errors/errors.go: Go errors as a data type (their dynamic type, what they wrap, their
--                text), IsChainConnectionError as `is_chain_connection_error`; a function that
--                returns a value and an error returns a `Result`
--   Datastore    datastore/datastore.go and datastore/lib/lib.go: ParseListOptions, GormTransaction
--   System       system/: Settings, Pause, Resume, IsHalted; System/Halting has their theorems
--   Jobs/Types   jobs/jobs.go and jobs/store.go: Job, State and the interface Store
--   Jobs/Store   jobs/store_gorm.go: the SQL store; Store/Accept is about AcceptJob, Store/Schedulable
--                about the query of the scheduler, Store/Contract about what the pool relies on
--   Jobs/Pool    jobs/workerpool.go and jobs/notification.go, with its records in Pool/Parts; Pool/Keeps and Pool/Outcome follow a
--                job through `process`, Pool/Retry through several of them, Pool/Queue and Pool/Steps
--                are about the channel, Pool/Notify about status notifications, Pool/Counts about
--                Status
--   ChainEvents  chain_events/: Listener; ChainEvents/Coverage is about the range of a poll,
--                ChainEvents/Delivery about the events that polls hand on, ChainEvents/Status about LockedStatus, ChainEvents/Stored about the stored height
--   FlowHelpers  flow_helpers/flow_helpers.go: addresses and WaitForSeal; FlowHelpers/Addresses and
--                FlowHelpers/Waiting have their theorems
--   Handlers     handlers/handlers.go: handleError, with its theorem in Handlers/Failures; Handlers/Writing has
--                what the handlers share, Handlers/Accounts, Handlers/Tokens, Handlers/Transactions,
--                Handlers/Jobs and Handlers/Templates model handlers/*_func.go over the interfaces of the
--                services, Handlers/Bodies is about requests that are not decoded, Accounts/Errors about
--                handlers that go on after an error, Jobs/Details about the handler for one job
--   Handlers/Idempotency  handlers/idempotency.go: the middleware and its local and SQL stores;
--                Idempotency/Contract is what a store promises and the local one keeps, Idempotency/Shared
--                the SQL one, Idempotency/Middleware what requests see
--   Handlers/Settings  handlers/system.go: reading and changing the settings
--   Jobs/Service jobs/service.go: looking jobs up
--   Transactions transactions/: types.go, transactions.go and argument.go in Transactions/Types, service.go
--                and jobs.go in Transactions, with its records in Transactions/Parts; Transactions/Sending and Transactions/Lookup have theorems
--                of them; Transactions/Sync is about requests that wait for their result, Transactions/Sql models
--                the SQL store, ExecuteScript and MustDecodeArgs, Transactions/Signed signed ones
--   Call         a call that returns, returns an error or panics, with its notation: for the next three
--   Keys         keys/: Keys/Types the data and the interfaces, Keys/Store the SQL store (Store/Rotation is
--                about the key that AccountKey takes), Keys/Encryption the crypter (keys/encryption/aes.go),
--                Keys/Manager the manager keys/basic; Manager/Storage is about Save and Load,
--                Manager/Proposals about the admin's proposal keys
--   Accounts     accounts/: Accounts/Types and Accounts/Store the data and the SQL store, Accounts/Service
--                the operations on stored accounts, Accounts/Creation and Accounts/Keys the jobs that send
--                transactions, Accounts/Admin the admin account; the modules below them have theorems
--   Tokens       tokens/: Tokens/Types and Tokens/Store the data and the SQL store, Tokens/Service the
--                tokens of accounts, Tokens/Withdrawals and Tokens/Deposits the transfers; Deposits/Ledger is
--                how the tables change under RegisterDeposit, Deposits/Repeated and Deposits/Duplicates are
--                about deposits that are registered twice
--   Templates    templates/: token types, deposit events and the token registry, in Templates/Enabled the
--                tokens that the configuration enables; Templates/Events and
--                Templates/Registry have theorems
-- The modules named Tests hold examples, those named Memory the tables that the examples run on.
--
-- How the state is modelled. Every operation is a function on a world `W` that holds the database,
-- the clock and whatever else the code reaches; it returns its error, what it has changed through
-- pointers, and the next world. A call through a *Job returns the job as the call has left it
-- (`OnJob`). The worker pool adds the channel (a list) and the closed stopChan to the world
-- (`PoolState`); its goroutines are steps that may happen in any order (`PoolStep`). A store, the
-- settings and the status row are reached through records of operations (`JobTable`,
-- `SettingsStore`, `StatusTable`, `KeyTable`, `TokenTable`, `KeyTables`, `AccountTable`, `TokenTables`,
-- `TransactionTable`): gorm and the database are parameters,
-- and the records' laws say what is relied on (a read returns the row that is there, a write
-- replaces one row or fails, a rollback restores what Begin saw, and so does a COMMIT that fails, whose
-- error the code drops). The Flow client,
-- AES-GCM, the event handlers, JSON encoding and the webhook's HTTP client are parameters without laws, but
-- for `ListenerContract` (client and handlers leave the status row alone) and `IsChain` (the client answers
-- with the events of the blocks that it is asked for). Of the SDK it is assumed
-- that an address is read back from its text (`Sdk`).
--
-- Bounds. Heights are uint64 and wrap around (`u64`); the theorems on them assume that the
-- chain's height plus the block limit fits. Times and durations are nanoseconds on ℕ, limits and offsets
-- are integers. Loops run over lists or are sequences of steps, but for WaitForSeal, which polls until an
-- answer ends it: `wait_for_seal` takes fuel, the theorems of FlowHelpers/Waiting say how much is enough,
-- and the transaction service is given enough by `Patience`, which stands for the context's timeout.
--
-- Not modelled: the cloud key services (keys/aws, keys/google) and the generators of keys in them, which
-- call their services; the Redis store of idempotency keys, TokenCode and the texts of the templates, the
-- routes, the debug and health handlers and the logging middleware, configuration and start-up,
-- migrations, log lines, the JSON form of balances, the closing of jobChan in Stop, and the tickers that
-- decide when a round begins. Parts that only pass a call on are left out as well.
pub mod Prelude
pub mod Errors
pub mod Call
pub mod Datastore
pub mod System
pub mod Jobs
pub mod Keys
pub mod FlowHelpers
pub mod Handlers
pub mod Templates
pub mod Transactions
pub mod ChainEvents
pub mod Accounts
pub mod Tokens
