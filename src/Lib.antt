-- ===== src/Lib.antt =====
-- InternNotifs: a catalog of internships with push alerts and assisted applications.
--
-- Parts
--
-- - Base: what the parts share: tests on numbers, lists, texts as UTF-16 code units, the result of
--   code that may throw, parsed JSON, the search for a text in another, and the FNV-1a hash.
-- - Session (src/application-automation.ts, src/api.ts, src/store.ts): the session of an assisted
--   application. Session.Digest is the field plan and its digest (`digestFieldPlan`),
--   Session.Machine the record and `transitionApplicationSession`, Session.Request the checks on an
--   event that comes in as JSON (`parseFields`, `parseSessionEvent`), Session.Store the rows of
--   `MemoryUserStore` that an event touches, and Session.Api the handler `applySessionEvent`.
--   Session.Invariant, Session.Traces and Session.Progress prove what holds of a session in each
--   state, over every sequence of events, and of the ways to its end.
-- - Health (src/source-health.ts, src/sources/source-error.ts): the record of a source's health that
--   is written after each poll. Health.Failure classifies what a poll threw
--   (`sourceFailureCategory`, `shouldQuarantine`, `sourceFailureOutcome`, `sourceBackoffUntil`) and
--   Health.Record writes the record (`successfulSourceHealth`, `failedSourceHealth`). Health.History
--   feeds each poll the record of the one before; Health.Quarantine, Health.Runs, Health.Backoff and
--   Health.Outcome are about what comes of that.
-- - Delivery (src/notifications.ts, src/store.ts): push notifications and their receipts.
--   Delivery.Receipt is the state (`DeliveryReceipt`, the receipts and devices of `MemoryUserStore`)
--   with a log of what was handed to the push service; Delivery.Send is `sendNewJobNotifications` for
--   one job and device and Delivery.Loop the whole of it, Delivery.Retry
--   `retryExpoPushNotifications` and `inspectExpoPushReceipts` for one receipt, Delivery.Run any
--   sequence of these steps. Delivery.Bounds and Delivery.AtMost prove what comes
--   of it.
-- - Cadence (src/source-poll-cadence.ts): when a source is polled (`isProviderSourceDue`), from the
--   health that Health writes. Cadence.Due is about published sources, Cadence.Shadow about shadow
--   sources.
-- - Admission (src/catalog-admission.ts): whether a posting is admitted to the catalog and to the
--   alerts. Admission.Evidence has the types, Admission.Metadata `metadataCompleteness`,
--   Admission.Evaluate `evaluateCatalogAdmission`, Admission.Derive `deriveCanonicalAdmission` and
--   Admission.Deadlines the tests of a stored decision; Admission.Grace, Admission.Grouping,
--   Admission.Pairs, Admission.Canonical and Admission.Sound prove what they promise.
-- - Identity (src/identity/registry.ts, src/identity/posting.ts, src/identity/reviewed-provider.ts):
--   which posting a listing stands for. Identity.Posting is `buildPostingIdentity`,
--   Identity.Evidence `reviewedProviderEvidenceError`, Identity.Decision the types and the interface
--   of what the registry calls, and Identity.Conflicts and Identity.Registry
--   `resolvePostingIdentityDecision`. Identity.Aliases is `resolvePostingAliases`, which looks for the
--   job that has the aliases. Identity.Outcome takes the branches of a decision apart;
--   Identity.Agree, Identity.Claims, Identity.Replay and Identity.Settled prove what a confirmation
--   means.
-- - Catalog (src/ingestion/catalog-reconciler.ts, src/identity/source-occurrence.ts): the jobs of the
--   catalog, from the snapshots of a source. Catalog.Types has the records and the interface of what
--   texts, URLs and dates are made into, Catalog.Occurrence is `mergeSourceOccurrence`,
--   Catalog.References and Catalog.Describe read off the references and the descriptions of a job, and
--   Catalog.Job is `merge`, `create` and `closeOccurrence`. Catalog.Plan, Catalog.Listing and
--   Catalog.Reconcile are `CatalogReconciler.reconcile`, which takes its admissions from Admission.
--   Catalog.Induction carries a property through its two loops; Catalog.Announced, Catalog.Known,
--   Catalog.Sound, Catalog.Linked, Catalog.Listed, Catalog.Closing, Catalog.Omissions and
--   Catalog.Attached prove what a plan keeps.
--   Catalog.Groups is `groupCatalogJobs` (src/catalog-groups.ts), whose lists Catalog.Places and
--   Catalog.Partition count.
-- - Trust (src/sources/trust-policy.ts): Trust.Policy is the policy of a source and Trust.Qualification
--   how a posting of a community source comes to raise alerts, one assessment after another
--   (`advanceTrustedCommunityQualification`). Trust.Streak follows such a sequence, and Trust.Alerts
--   proves what an eligible posting has, and what Catalog makes of a suppressed one.
-- - Database (cloudflare/resilient-d1.ts): Database.Retry is `withRetry` with the statements and batches
--   that go through it, where the attempts that are left count down; Database.Settles proves how they
--   end.
-- - Fifo (src/sqs-fifo-batch.ts): the workers that share a batch of a FIFO queue. Fifo.Batch is
--   `processFifoBatch` under a schedule of its workers; Fifo.Schedules and Fifo.InOrder prove that the
--   schedule does not matter.
-- - Dlq (cloudflare/dlq-operations.ts): the repair of dead-letter queues. Dlq.Plan has the rows of a
--   plan, Dlq.Message reads a message (`parseMessage`, `discardableMessage`), Dlq.Make is `planDlq` and
--   Dlq.Apply `applyDlq`. Dlq.Counts, Dlq.Once, Dlq.Attempts, Dlq.New and Dlq.ExactlyOnce count what
--   attempts do to each item. A send may fail before the queue takes the message, or be cut short
--   after it, before any of the marks. Attempts that overlap are not covered: Dlq.Examples runs two
--   that replay an item twice.
--
-- What is given and what is left out
--
-- Instants are numbers of milliseconds; the clock, random ids and the answers of services are
-- arguments. What the code takes from libraries or does to the text of a message (`safeDiagnostic`,
-- `toLowerCase`, SHA-256 keys, the job filter) is a parameter, and the theorems hold whatever it does;
-- so is the parsing of URLs (the record `Routes` of Identity), and what the reconciliation calls on
-- texts and dates (the record `Tools` of Catalog). Every loop is structural recursion on its list;
-- only the hexadecimal digits of the 32-bit digest count down from eight, which is as many as 32 bits
-- have, and the attempts at a database statement from the number that is allowed. Numbers that wrap around do so in the hash alone, where `% 2 ^ 32` is written out. The
-- stores are the in-memory ones of src/store.ts and, for Dlq, the rows of one plan, where the
-- writes other than the marks of a send succeed; an operation of them is one step, and a request is
-- one step but for the deletion of the account that may begin before the second write of a session
-- event; a plan of the reconciliation is a value, and its storing is not modelled, nor are the
-- other DynamoDB and D1 stores, the sources of the providers, the other routes of the HTTP API and
-- the user interfaces.
pub mod Admission
pub mod Base
pub mod Cadence
pub mod Catalog
pub mod Database
pub mod Delivery
pub mod Dlq
pub mod Fifo
pub mod Health
pub mod Identity
pub mod Session
pub mod Trust
