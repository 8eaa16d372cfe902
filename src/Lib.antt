-- ===== src/Lib.antt =====
-- The guarded inbox: which messages may be sent, at what price, and how they are sent once.
--
-- The services of backend/internal/inbox work on one database. Members read and change conversations
-- (operations.go), ask whether a reply may be sent (`preflight`) and submit it (`submit`, guard.go).
-- A submission passes the guard (`Evaluate`), which asks for a window that an authenticated message
-- has opened (materialize.go) and for a reviewed policy that prices the delivery at zero
-- (exposure.go). The dispatch worker (worker.go) evaluates everything again, takes the only slot of
-- the phone, sends one request (backend/internal/meta/send.go) and records its outcome; status facts
-- that arrive later are projected to a delivery state. Rates and budgets are kept by the registry
-- (registry.go) and the billing currency by pricing_coverage.go. Messages and status facts reach the
-- inbox by a signed callback, whose events a worker classifies and settles (backend/internal/meta);
-- who may act is decided by members, roles and sessions (backend/internal/identity).
--
-- Files and code:
--   Base: shared names, tests, lists and results.
--   Inbox/Store: the tables of database/migrations/00004_guarded_inbox.sql that the operations read,
--     as one record of lists, for one organization. A transaction is a function on it; one that fails
--     is `err` or `none` and leaves the tables as they were.
--   Inbox/Error, Time, Text: the errors of service.go and identity/service.go; times in nanoseconds
--     from Go's zero time; texts as lists of code points, `validText`, `identityDigits`.
--   Inbox/Amount, Interval, Exposure, Estimate: `amount` of registry.go, and `intervalMaximum`,
--     `serviceExposure`, `maximumStillApproved` of exposure.go.
--   Inbox/Guard: `Evaluate` of guard.go. Inbox/Evaluation: `conversation`, `scopeHash` and the method
--     `evaluate`. Inbox/Submit: `preflight` and `submit`.
--   Inbox/Dispatch, Outcome: the transactions of `DispatchOnce`, `finishDispatch` and
--     `recoverUncertain` of worker.go. Inbox/Workers: any number of workers, as steps on one state.
--   Inbox/Delivery: `deliveryProjection`. Inbox/Content, Receive, Events: `typedContent`,
--     `windowBasis`, `materializeMessage`, `materializeStatus`, `MaterializeOnce` of materialize.go.
--   Inbox/Commands: the changes of `operation` and `noteChange`, operations.go.
--   Inbox/Rates, Registry: `validateRates`, the imports and actions of `registry`. Inbox/Registry/Budgets:
--     `POST /budgets` and `reserveBudget`. Inbox/Billing: `recordBillingCurrency`.
--   Inbox/Live: `LoadLive` of config.go.
--   Meta/Send: `SendText`. Meta/Events, Classify, Facts, Process: the posted events, `classify`,
--     `processOne` and the replay of an event. Meta/Webhook: the callback. Meta/Graph: `get` and `pages`.
--     Meta/Snapshot, Inventory: `Snapshot`, `syncOne`, `persistSnapshot`.
--   Identity/Tables: the rows of backend/internal/identity for one organization, of
--     database/migrations/00001_identity_tenants.sql and 00002_identity_access.sql.
--     Identity/Permission: the permission query, `ceiling`, `ownerInvariant`. Identity/Organization:
--     the writes of `organization` and `accept`. Identity/Sessions, Challenges: `rotate`,
--     `LockDomainSession`, `challenge`, `limit`. Identity/Completion, Domain: the proof of a challenge,
--     `authenticate`, `DomainTransaction`. Identity/Mail, Delivery: `enqueue`, `DeliverOne`.
--   Examples: the functions run on concrete rows.
--
-- Parameters stand for what is not in these files: SHA-256 and HMAC, encryption, decoded JSON, new
-- identifiers and tokens, the clock, the network, the mail transport, the rows that other transactions
-- have locked, and, for processOne, the statements that fail. The theorems name what they assume of
-- them. The inbox asks the identity component for permissions and sessions (`Access`, `Directory`), as
-- parameters; Identity/Sessions/Revocation gives them by the identity component's own functions.
--
-- Loops are by recursion on lists. Fuel is that of `decimal`, the digits of a number, which exceeds
-- the number and so the count of its digits, and the hundred requests of `pages`, which are the
-- program's own bound. Amounts are exact in units of 10^-8, since the pattern admits eight places.
-- Numbers of the database are natural; an `int64` of a request that may be negative is `Watermark`,
-- and a negative revision differs from every stored one.
--
-- Not modelled: read-only queries, routing and JSON, signed cursors, the realtime stream, the polling
-- loops, the computation of `diffArtifacts`, the pricing preflight, the password login, the factors
-- and the other actions of `identity` in backend/internal/identity/auth.go, SMTP, process start and the front end.
pub mod Base
pub mod Inbox
pub mod Meta
pub mod Identity
pub mod Examples
