-- ===== src/Lib.antt =====
-- A model of the order workflow and inventory services, with the theorems that make them correct.
--
-- The program. A workflow service (apps/workflow-service) owns orders, their audit trail and the
-- idempotency keys; an inventory service (apps/inventory-service) owns stock, reservations, the
-- movement ledger and stock alerts; each has a PostgreSQL database of its own. A domain package
-- (packages/domain) holds the order lifecycle, which both the services and the web pages read. An
-- order is placed as a saga: the workflow service prices it, asks the inventory service over HTTP to
-- hold the stock, writes the order, and confirms the hold. Later transitions append rows to
-- `order_events`, whose trigger calls the webhook of the inventory service, which releases or commits
-- the hold. A sweeper gives back the holds that were never confirmed.
--
-- The files.
--   Prelude: numbers, lists, integers and strings that the modules share.
--   Domain: packages/domain/src. Transitions has the statuses, roles, actions and the table;
--     StateMachine has `applyTransition`; Gate and Lifecycle compare them with the lifecycle as an
--     inductive relation `Permits`.
--   Runtime: calls that may throw, and `withTransaction` of both repositories; Runtime/Laws has the
--     rule for a bind and what a transaction keeps.
--   Inventory: apps/inventory-service/src. Tables is the schema of hasura/migrations/inventory;
--     Repository (and Repository/Rows) is db/inventory.repository.ts; Rules is
--     inventory/stock-rules.ts; Service/Record, Service/Reserve and Service/Settle are
--     inventory/inventory.service.ts; Events is the folder events; Sweeper is
--     inventory/sweeper.service.ts; Errors and Http are common/errors.ts and common/action-error.ts;
--     Api is inventory/inventory.controller.ts with dto.ts. Serving has the transactions that these parts
--     start, in any order. Gauges is observability/metrics.controller.ts with the gauges of
--     observability/metrics.service.ts. The modules of Stock prove what the operations do to the counts of
--     stock, those of Books what they do to the ledger and the alerts; Stock/Rows is about what stays true of
--     each reservation whatever calls run, and Stock/Confirmed about the sweeper and confirmed holds.
--   Orders: apps/workflow-service/src. Tables is the schema of hasura/migrations/default; Repository
--     is db/order.repository.ts; Transition and Placement are orders/orders.service.ts; Client is
--     inventory/inventory.client.ts; Errors is orders/errors.ts with common/action-error.ts; Edge is
--     common/session.ts and the folder events; Guards is common/hasura-auth.guard.ts,
--     common/user-throttler.guard.ts and observability/metrics.interceptor.ts; Dto is orders/dto.ts; Api is
--     orders/orders.controller.ts; Traffic is what common/user-throttler.guard.ts refuses and what
--     observability/metrics.service.ts counts; Fingerprint is common/idempotency.ts. Revision is about
--     transitions, Keys, Replay and Reuse about placement; Serving has the calls of both in any order,
--     Audit is about the events of every order after them, and Histories about what becomes of an order.
--     Edge/Sessions and the children of Guards and Api are about requests.
--   Config: packages/config/src/env.ts and config/config.module.ts of both services.
--   Services: both services at once, step by step, with the trigger `inventory_sync` of
--     hasura/metadata/databases/default/tables/public_order_events.yaml, which delivers the events of the
--     trail to the inventory service. Runs has the steps and what both databases
--     agree on after them, Asking what a placement asks of the inventory service.
--   Web: apps/web. Detail is app/orders/[id]/page.tsx, NewOrder is app/new/page.tsx, OrderList is
--     app/page.tsx, Session is lib/auth.ts, Chrome is lib/providers.tsx and components/header.tsx; each
--     page is a function from the answers of its queries to what it shows.
--   The modules Tests, and Orders/Checkout, run the code and apply the theorems at concrete inputs.
--
-- How the code is rendered. A function by clauses has the name of the source's, in snake case. A
-- call takes the state and gives a result or an error and the next state; a call ending in `_in` is
-- the body of a transaction. A table is a list of rows in the order of insertion. UUIDs are numbers,
-- which keep PostgreSQL's order; timestamps are milliseconds. The `integer` columns are bounded by
-- 2^31 - 1: a statement that would leave the range throws, as would one that breaks a constraint of
-- the migrations.
--
-- What comes from outside. The PostgreSQL driver is a script of faults, one for each transaction:
-- the connection is refused, the commit is refused, or it takes effect and the acknowledgement is
-- lost; a script that has run out is healthy. The network is a script in the same way: a request or
-- a reply is lost. Transactions run one after another. Where the source locks what it reads
-- (`for update` on orders, holds and stock items), its row locks make them so for one order and for one
-- product. `isStillExpired` locks nothing: a confirmation can commit between its check and the release of the
-- sweeper, an order of statements that the model leaves out. In Services a whole placement is one step,
-- although sweeps and other calls can come between its transactions; Inventory/Serving takes the transactions
-- of the inventory service one by one. SHA-256, what `JSON.stringify` writes for a primitive, the
-- collation of the database, whether the throttler admits a request, `randomUUID`, the clocks, the time to
-- live, the reading of UUIDs, the trimming of texts and Node's buffers are arguments. No function
-- needs fuel: every loop of the source goes over a list.
--
-- What is not modelled. Log lines, spans, the text of messages, surrogate keys and timestamps that
-- no code reads; `select distinct` without an order takes the first rows; a rollback or a release
-- of a connection that itself fails. BEGIN, COMMIT and ROLLBACK are no calls of their own: the script of faults
-- says what becomes of a transaction, a ROLLBACK does what PostgreSQL documents, and a driver that fails
-- between two statements of a body is not represented. A UUID is its value, so that the upper-case text of a
-- UUID, which the string comparisons of the source tell from the lower-case one that PostgreSQL returns, is
-- accepted here. A text never fails, although PostgreSQL rejects one with a NUL character. The buckets of the histograms, the default metrics and the
-- counts of the throttler, which their libraries keep. A body that has not the shape of its schema,
-- and a number in it that is no integer. Of the web application the layout, the styles and the formats
-- of money and dates; the token endpoint is an argument. The generated GraphQL client, and the wiring
-- of the Nest modules.
mod Prelude
pub mod Domain
pub mod Runtime
pub mod Config
pub mod Inventory
pub mod Orders
pub mod Services
pub mod Web
