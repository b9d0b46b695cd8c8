-- ===== src/Lib.antt =====
-- digital_store sells digital goods: orders are created over HTTP, a payment system reports their
-- payments by a webhook, a worker gets a code for each paid order from one of two providers, and a
-- reconciliation service reports and repairs what does not fit together. All state is in
-- PostgreSQL; the components meet in its tables only.
--
-- Files and what they model:
-- - Prelude: Boolean tests, tables as lists of rows with the SQL statements on them, int64
--   amounts, and the texts that TrimSpace, TrimRight and Atoi of Go read; Prelude/Ordered has
--   sorted tables.
-- - Model: the statuses and rows (internal/model, internal/migration), transactions and the
--   statements that several operations share. Model/View is what one order sees of the tables.
-- - Order: internal/order/repository.go (create, get_by_id, process_payment); Order/Payment is
--   applyPaymentToOrder with applyPaidEvent and applyFailedEvent; Order/Pending is
--   applyPendingPayments; Order/Lifecycle is the abstract life of an order, which the statuses
--   refine.
-- - Delivery/Repository: internal/delivery/repository.go. Claim has ClaimNextJob and
--   RecoverStaleJobs, Report has MarkDelivered, MarkOutOfStock and MarkFailed.
-- - Delivery/Provider: internal/delivery/provider.go and http_provider.go. Delivery/Service:
--   internal/delivery/service.go (decide is the calls of Process, report its complete, outOfStock
--   and fail); its children prove what it calls and reports. Delivery/Worker:
--   internal/delivery/worker.go (process_next, run); its children prove that a turn settles a
--   delivery (Turns), that the loop ends (Waiting, Fewer, Drain) and that it is a run of System
--   (Runs).
-- - Catalog: internal/catalog (List, as one page of the whole query); Catalog/Pages compares a
--   page with the query, Catalog/Whole and Catalog/Crawl all pages with it.
-- - Config: internal/config/config.go (load and its readers); Config/Ranges has the ranges of its
--   numbers.
-- - Mock: issueCode of internal/providermock/server.go; Mock/Stock proves what the stock does.
--   Mock/Handler is its handler issue, and Mock/Client what HTTPProvider.Issue makes of the
--   answers.
-- - Reconciliation: internal/reconciliation. Report has BuildReport, Retry has RetryDelivery,
--   Repair has Repair, Loop has RunRepairLoop.
-- - Http: internal/httpapi. Orders and Payments are the handlers of server.go, Operations those of
--   operations.go, Listing that of catalog.go, Router the routes; Runs, Retries and Accepts prove
--   what the answers mean and what a request does to the store.
-- - Coherence: the invariant of the tables and that each operation keeps it, one child for each
--   group of operations; Duplicates, Commits, Settles, Audit and Repairs say more of single
--   operations.
-- - System: the operations as steps on a shared state, in any order, with the jobs that workers
--   hold.
-- - Program: cmd/api/main.go and cmd/provider-mock/main.go. What they build of the configuration,
--   and a process as a state whose acts (a request, a claim, a delivery, the end of a wait, a
--   repair, a signal, the select of main) come in any order; Runs, Lasting and Stopping are about
--   what a process does to the store, what ends it and what it does at its end, and Errors is
--   about the errors of its transactions.
-- - Tests: a small shop, its states, and each result applied to them.
--
-- Transactions. An operation is a function from the database to an error or a value with the new
-- database; an error rolls back, and the transactions are serial, in the order in which they
-- commit. That is an assumption: the code locks the rows that it reads for an update (FOR UPDATE),
-- but create reads the waiting payment events without a lock, and an event that commits between
-- that read and the commit of the order is applied by neither. A claim skips rows that others hold
-- (SKIP LOCKED); which these are is an argument. The clock and the UUIDs that a transaction draws
-- are its environment, and any value of them is allowed. A table is a list of rows in no order
-- that matters. UUIDs and times are natural numbers, amounts are int64 of which only equality and
-- the sign are used. An error of the connection, or a context that is done before a transaction
-- starts, makes a call of a repository fail with no change: handlers, worker and repair loop take
-- it as an argument. A commit whose answer is lost is not modelled, nor is the bound of INTEGER on
-- the number of tries of an attempt. The four queries of a report see four databases, since no
-- transaction holds them together.
--
-- The retry loop of a delivery is recursion on the number of tries that are left, which starts at
-- the retry count; NewService makes that 1 at least. A provider is any answer to each call, and a
-- network any reply.
--
-- Platform stands for what is outside the repository: the UUID package (a printed id parses back
-- to itself) the collation of texts, and which texts PostgreSQL takes as jsonb. Numbers stands for
-- float64, strconv.ParseFloat and time.ParseDuration.
--
-- The loops of the worker and of the repair are recursion on the list of their rounds, each with
-- what the clock, the select and other transactions do in it; a list of any length is allowed, and
-- where an end is claimed a bound on its length is proved enough.
--
-- A handler gets a request that chi has matched to its route and the JSON decoder has read; a body
-- that does not decode is a case of its own. A webhook is decoded twice, so a number in it passes
-- through a float64: the event is what comes of that.
--
-- Not modelled: logging and waiting times; chi, the JSON decoder and the HTTP servers; the random
-- numbers of the mock provider and its route of the health check; the connection pool; in the two
-- programs, the time that Shutdown waits, and a negative delay of the retries.

pub mod Prelude
pub mod Model
pub mod Order
pub mod Catalog
pub mod Delivery
pub mod Mock
pub mod Http
pub mod Config
pub mod Reconciliation
pub mod Coherence
pub mod System
pub mod Program
pub mod Tests
