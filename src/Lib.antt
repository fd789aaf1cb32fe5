-- ===== src/Lib.antt =====
-- A model of the KerisLab platform: the services behind its HTTP interface (apps/api/kerislab),
-- which sell credits, hold one for each scan, run scans and their jobs, ask for approvals and
-- decide who may do what.
--
-- The parts and their files. Models and its children are the enumerations and dataclasses of
-- apps/api/kerislab/models.py, field by field, and Store the state of `InMemoryStore`
-- (apps/api/kerislab/store.py), with one `Collection` for each of its dictionaries; Dict is the
-- dictionary itself. Exec is the shape of a method: it takes the world (the store, what the
-- program asks of its surroundings, and how often it has read the clock and drawn random digits)
-- to a result or an exception, with the world that it leaves in both cases, so that what was
-- written before a `raise` stays written. Python's objects are shared: what a method assigns to an
-- object that it has fetched is written back under the key by which it was fetched.
-- Scope is apps/api/kerislab/scope.py. The children of Services are the classes of
-- apps/api/kerislab/services.py: Credits is `CreditService`, Scans `ScanService`, Autonomous
-- `AutonomousPentestService`, Engine `ScanExecutionService`, Billing `BillingService` (with the
-- provider events in Billing/Webhooks), Audit `AuditService`, Authorization
-- `AuthorizationService`, Auth and Sessions `AuthService` and `OAuthStateService`, Workspaces
-- `WorkspaceService`, `ProjectService` and `ModelProfileService`, Reports `ReportService`, Workers
-- `WorkerStatusService`, Browser `BrowserExecutionService` (with the run on a page in
-- Browser/Playwright) and Evidence `EvidenceStorageService`. Oidc is apps/api/kerislab/auth.py, Worker the
-- loop of apps/api/kerislab/worker.py, Migrations apps/api/kerislab/migrations.py, Preflight
-- scripts/compose_preflight.py, and the children of Http are the handlers of
-- apps/api/kerislab/main.py, by what they are about; Http itself has what they share. A function
-- has the name of its method, a handler that has the name of a service's method carries `_endpoint` behind it; a
-- method's parts that have no name in the source are helpers in front of it.
--
-- How they interact. `ScanService` reserves, deducts and releases credits through
-- `CreditService`, `BillingService` grants them, `AutonomousPentestService` and the engine call
-- `ScanService`. Services/Credits/Ledger is the abstract account, the replay of the ledger;
-- Services/Books says how accounts, ledger, reservations and scans fit together, and
-- Services/Lifecycle puts every operation that touches them into one step relation.
-- Services/Bystanders has the other operations, and Http/Keeps/Requests every
-- writing handler as a request, one after the other, over what they take from outside (identity
-- providers, the page of a browser, the storage of evidence, the signatures of the billing
-- provider), which are parameters. Examples holds concrete runs.
--
-- Bounds. Times are microseconds on the native numbers and Python's integers are unbounded; no
-- method loops but over a list, so no fuel is needed; the worker's loop takes the number of its
-- rounds. Identifiers are the first twelve digits of a random UUID, which may collide: where a
-- property needs a new identifier, it says so.
--
-- Not modelled: the lock of the store (a call is one step), Redis and the thread of the engine (its
-- queue is, and what `drain` does with it), the SQLite and Postgres stores, what FastAPI and
-- pydantic check of a body before a handler is called, the dictionaries that `serialize` makes of
-- an answer, the scripts but for the preflight check, and the web pages.
-- `urlparse`, `ipaddress`, `str.lower`, `str.strip`, `strftime`, the clock and the random source
-- are functions of the surroundings, of which nothing is assumed.
pub mod Prelude
pub mod Dict
pub mod Models
pub mod Store
pub mod Exec
pub mod Services
pub mod Scope
pub mod Dynamic
pub mod Examples
pub mod Worker
pub mod Http
pub mod Preflight
pub mod Migrations
pub mod Oidc
