-- ===== src/Lib.antt =====
-- FlowX moves stablecoins between wallets. A transfer is screened and recorded by the transfer
-- service (internal/transfer), with its fee (internal/fees) and the decision of the compliance
-- service (internal/compliance); a task in the queue (internal/queue) leads the settlement engine
-- (internal/settlement) to claim the transaction, pay it on Stellar and record what became of it;
-- and reconciliation (internal/reconcile) compares the ledger with the network and recovers what is
-- stuck. Batches (internal/batch) are many transfers in one call, and schedules (internal/schedule)
-- start a transfer again and again. Webhooks (internal/webhook) tell the tenants' servers of events,
-- internal/fx converts between assets at quoted rates, and internal/treasury moves what the platform
-- does not need to cold storage. All of them work on the tables of internal/postgres.
--
-- World.antt is the state that they share: the rows of the tables, the queue, the events, and what
-- was sent to the network. What the outside answers is a script in it, with a failure of the
-- database or the queue at any call. Exec.antt is the type of a call that changes this state and
-- may return an error; Go's `(T, error)` keeps what was written before the error, and so does it.
-- Table.antt has the SQL statements over a list of rows. Domain.antt has the types of
-- internal/domain, and Calendar.antt the dates of Go's `time`.
--
-- TxRepo.antt is internal/postgres/transaction_repo.go, a function for each method; its children
-- take the methods together as histories. Fees.antt is internal/fees. Compliance/ has the composite
-- screener (Screener), the sanctions set (Sanctions), the velocity rules (Velocity), the edit
-- distance of names (Levenshtein), the tables (Repo), the service (Service) and the decisions on
-- reviews (Review). Transfer/ has the service, the address and trustline checks, and what a call
-- for a transfer does on all its paths (Gate). Submission.antt has the attempts to submit one
-- transaction, and Settlement.antt the engine for Stellar. Xdc.antt is the client of the XDC chain
-- (internal/chain/xdc), and Xdc/Engine the engine that settles on it, over the script of what the
-- node answers and of what each wait for confirmations reads before its context ends. Reconcile/ has
-- the matching of payments (Verify), the pass over transactions in flight (Pending, Corrections), the recovery (Recover), the
-- audit of confirmed transactions (Audit, Audited) and the run of the three (Runs).
-- Batch.antt is internal/batch. Examples/ has the theorems on concrete data.
--
-- Schedule.antt has the rows of internal/postgres/schedule_repo.go, Schedule/Service and
-- Schedule/Worker the service and the run of the due ones, over Calendar/Later and
-- Domain/Recurring; the labels of the status column are a parameter, with those of the migrations
-- in Schedule/Labels. Webhook/ has the repository (Repo), the test of addresses (Address), the
-- service (Service) and the attempts of a delivery (Deliver): the URL parser and the keyed hash are
-- parameters, what the resolver and the servers answer is a script. Fx/ has the rates behind their
-- cache (Rates), the quotes and the conversions (Quotes): Redis is a list of keys with deadlines,
-- and its script is one step, as Redis runs it. Treasury/ has the balances and reserves (Balances)
-- and the sweeps (Sweep); what is proved of a sweep is over accounts that stay as they are while it
-- runs (Sweepable).
--
-- Amounts are github.com/shopspring/decimal, which Decimal.antt takes as an interface, with laws
-- and an instance in steps of 10^-7 below it. Wallets, tenants, fee schedules and accounts are read
-- through functions that a service takes; building and signing a transaction is one function of the
-- engine; what pgx does with NULL is a parameter where the source relies on it. Times are seconds.
-- An isolated database transaction is one step. Loops are over lists, but for the three attempts of
-- a submission and the five of a delivery, which count down as the source counts up, and the loop
-- that rolls a schedule forward, whose turns are bounded by the seconds up to the present, since
-- each turn goes forward by at least one.
--
-- Not modelled: logs, alerts and the texts of errors; the ORDER BY of queries; the fiat columns;
-- the handlers, the web application, the SDK and the contracts; the services for wallets,
-- routing, organisations, anchors and fiat rails; the providers of rates.
pub mod Prelude
pub mod Decimal
pub mod Exec
pub mod Domain
pub mod Table
pub mod World
pub mod Xdc
pub mod TxRepo
pub mod Calendar
pub mod Fees
pub mod Compliance
pub mod Transfer
pub mod Submission
pub mod Settlement
pub mod Reconcile
pub mod Batch
pub mod Schedule
pub mod Webhook
pub mod Fx
pub mod Treasury
pub mod Examples
