-- ===== src/Lib.antt =====
-- The Zoho migration pipeline: vouchers of the Eco Green system are staged, checked against a cutover
-- matrix and the postings of Smart Pharma, batched, approved, queued and posted to Zoho Books.
--
-- The parts, and the files that model them:
--   Base, Errors    shared helpers; the errors that the code throws
--   States          src/core/states.js: the tables of transitions of runs, batches and queue items, and
--                   assertTransition
--   Money           src/core/money.js: parseMoney and formatMoney on whole paise
--   Store           src/adapters/store/sqlite.js: the tables as lists of rows; get, update, insert with
--                   its UNIQUE constraints, claim and releaseClaim; and, beside the tables, the
--                   requests that have gone out to Zoho Books
--   Audit           src/core/audit.js: emit
--   Assignments     src/core/assignments.js: createAssignment, reassign, setStatus
--   Cutover         src/core/cutover.js: resolveCutover, evaluateEligibility
--   Mapping         src/core/mapping.js: resolveRule
--   Fallible        chains of results and the sums of money in them
--   Csv             src/core/csv.js: parseCsv
--   Summarise       src/core/summarise.js: summariseLines, summariseRun
--   Overlap         src/core/overlap.js: classifyOverlap
--   Exceptions      src/core/exceptions.js: raise, resolve
--   Classification  src/core/overlap.js: classifyRun
--   Transform       src/core/transform.js, buildPayload and transformRun, with hashCanonical of
--                   src/core/hash.js; src/books/gl_effects.js: glEffects
--   Bridge          src/core/bridge.js: computeBridge, compareBridgeToFile and the verdict of
--                   reconcileLayerB
--   Balance         src/core/balance_bridge.js: computeBalanceBridge and
--                   migrationMovementByAccount
--   Batch           src/core/batch.js and scopeHash of src/core/hash.js: createBatch, approveBatch,
--                   invalidateApprovalIfChanged, enqueueBatch
--   Books           src/books/guard.js, classify.js and limiter.js (withRetry, SlidingWindow)
--   Executor        src/worker/executor.js: runQueueSlice, processItem, deriveBatchStatus,
--                   resolveUnknownOutcomes
--   Tests           the theorems at concrete inputs
--
-- A call of the code is an action: it takes the store and gives a result, a value or the error that
-- it throws, and the store afterwards. What was written before an error stays written, since none of
-- the modelled code runs in a transaction. A text is a list of UTF-16 code units, an absent or null
-- field is none, and a date is its ISO text. One call reads the clock once: `now` of its context. A
-- call is one step, and calls that overlap are a sequence of them; of `setStatus` the part after the
-- read is a step of its own, so that another call can come in between.
--
-- The parts interact by the store: assignments, batches and the executor change their rows and
-- append to the audit trail by `emit`; the executor claims items, raises exceptions, and asks the
-- guard of Books before it posts. Classification reads the matrix and the mapping rules and gives
-- each voucher its disposition; the transformation turns the vouchers to migrate into documents, whose
-- effects on the ledger the balance bridge adds up again once they are posted. Loops over rows are
-- recursion on the list; withRetry runs on fuel, the larger of maxAttempts and 1, which is enough. A
-- pass of SlidingWindow.take is one step, and concurrent callers are a sequence of steps.
--
-- Code outside the repository is a parameter: the SHA-256 of a scope (`digest`), the random draws of
-- a backoff, the client of Zoho Books (`Client`, with the errors of JSON.parse), the conversion of a Retry-After header, the
-- arithmetic of dates and the ids that are drawn; the digest and the JSON text of a document
-- (`Encoding`), and JSON.parse of a stored one (`parse`).
--
-- Not modelled: the staging of files and manifests (src/core/ingest.js, manifest.js), layers A and C
-- of the reconciliation (src/core/recon_a.js, recon_c.js), the rows that reconcileLayerB and
-- balanceBridge write and the sweep of Books in the latter, which are later parts; the HTTP server,
-- authentication and the user interface, the hosted adapters, the encodings of a file and the polling
-- loop of the worker, which are input and output; the totals by module of a batch, the listings of
-- assignments, the refresh of the branch summary, humanSummary and the masking of secrets in the
-- audit trail.
pub mod Base
pub mod States
pub mod Money
pub mod Errors
pub mod Store
pub mod Audit
pub mod Assignments
pub mod Books
pub mod Cutover
pub mod Mapping
pub mod Overlap
pub mod Exceptions
pub mod Batch
pub mod Executor
pub mod Fallible
pub mod Csv
pub mod Summarise
pub mod Classification
pub mod Transform
pub mod Bridge
pub mod Balance
pub mod Tests
