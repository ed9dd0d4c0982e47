-- ===== src/Lib.antt =====
-- RoadWatch: reports of damaged roads, the images and the reputation behind them, and their anchors
-- on a ledger.
--
-- The parts and how they interact. A citizen asks backend-api for a nonce and sends an image with
-- it; the route checks the sender's karma, the nonce and the image, stores the submission and
-- settles the karma. Roles decide which fields of a submission a reader gets. Writes of the
-- gateway's replicas pass admission control over shared redis counters, with limits that follow the
-- load, and an idempotency key keeps a write from running twice. Events leave through an outbox to
-- Kafka, and calls of Fabric pass a circuit breaker. Batches of complaint events are hashed into a
-- Merkle root, and the root is anchored on the Fabric ledger, whose chaincode also keeps the
-- complaints. An overdue complaint climbs a hierarchy of authorities and costs karma. A device
-- without a network keeps an outbox and reconciles its state with the server's later.
--
-- Files and code:
--   Prelude           lists, integers, text and a stable sort that the parts share
--   Merkle            services/fabric-anchor-consumer/index.ts: merkleRoot with layers and proofs;
--                     Proofs, Binding
--   RegionCode        the same file: toFabricRegionCode, over code points
--   Redis             the counters that redis offers, as an interface with the documented laws of
--                     INCR, DECR and EXPIRE; Redis/Store fills it
--   Admission         packages/redis/admission.ts: the two Lua scripts; Keys and Client are the
--                     TypeScript around them; Atomic, Decision, Holders, Client/Laws and
--                     Client/Charges prove
--   Karma             packages/core/src/karma-service.ts: getTierFromScore, escalatePenalty,
--                     canUserSubmit, calculateNewScore and the rest, over integers
--   Privacy           packages/core/src/privacy-service.ts: the table of visible fields,
--                     filterImageSubmissionByRole, validateFieldAccess, canReadSubmission
--   Verification      packages/core/src/verification-service.ts: the checks of an image
--   Nonce             packages/core/src/nonce-service.ts: lifetimes, rate limit, extractAsciiText
--   Submission        backend-api/src/routes/image-submissions.ts over the tables of
--                     packages/core/src/db-helpers.ts: Store is the tables, Issue is
--                     POST /submissions/nonce, Accept is POST /submissions; Laws, Rows, Limits and
--                     Replay prove
--   Chaincode         chaincode/src/contract.ts and asset.ts: the transactions that write, those of
--                     authorities in Authority; Laws, Events and Callers prove
--   Sync              packages/core/src/engines/SyncEngine.ts; Laws, Batch
--   Network           packages/core/src/engines/NetworkDegradationManager.ts
--   Access            packages/core/src/engines/AccessControl.ts
--   Idempotency       apps/gateway-api/src/idempotency.ts: the statements on the row of one key;
--                     Requests interleaves them, Exclusion and Laws prove
--   Canonical         the same file: stable, buildRequestHash and deriveIdempotencyKey, and
--                     stableStringify of services/fabric-anchor-consumer/index.ts; Same is what
--                     the text does not tell apart, Printing and Reading are its two directions
--   ReadCache         packages/redis/read-cache.ts: the cache of one list, with its generation and
--                     the fill that concurrent reads share; Laws
--   Outbox            apps/gateway-api/src/kafka/outbox.ts: claim and marks; Drain is the relay;
--                     Rows, Chosen, Landing, Laws and Settling prove
--   Circuit           apps/gateway-api/src/security/circuit-breaker.ts; Laws
--   Anchor            services/fabric-anchor-consumer/index.ts: polls, offsets and the batch; Flush
--                     is flush with its error path; Laws, Delivery, Runs, Budget and Races prove
--   Escalation        packages/core/src/escalation/EscalationEngine.ts: nextInLinearHierarchy, with
--                     services/scheduler/hierarchy.ts; Climb, Roads, Equality
--   Sla               services/scheduler/index.ts: checkSlaBreaches over its tables (Check, with
--                     what it writes and asks for in Effects); Tracking is ensureSlaTracking of
--                     apps/gateway-api/src/services/complaint-lifecycle.ts; Laws, Settled, Quiet
--                     and Once prove. Inspections is checkInspectionOverdue
--   Lifecycle         apps/gateway-api/src/services/complaint-lifecycle.ts: awardKarma and
--                     applyUserKarmaDelta, with applyUserKarma of services/scheduler/index.ts;
--                     Laws. Contractor is the transaction of applyContractorKarma there
--   Adaptive          packages/redis/adaptive-backpressure.ts: the limits and their memo; Laws,
--                     Cache. Pair is acquirePermitPair, which takes permits under the limits
--   Engines           packages/core/src/engines: Complaints, Roads and Budget, with the working
--                     days of packages/core/src/utils/datetime.ts in Dates
--
-- How state is modelled. A route or a script takes the state and returns it with its answer; a
-- replica's step on the shared counters is a step of a relation, and interleavings are its paths;
-- so is a statement of a request on the row of its idempotency key. A table of SQL is the list of
-- its rows, and what a publish, a Fabric call or a dying process does to a loop is an argument of
-- it. A transaction of the chaincode returns a new ledger or an error, and an error leaves the
-- ledger as it was, as Fabric endorses nothing of a transaction that throws.
--
-- Bounds and fuel. The layers of a Merkle tree are built on fuel: the number of leaves, which is
-- enough as each round shortens a layer longer than one. Decimal digits are produced on the number
-- itself as fuel. The search for the last of a number of working days has three rounds for each,
-- which is enough as a week has two days off. All else is structural recursion. Numbers are exact:
-- the counts and milliseconds of the code stay far below 2 ^ 53. A tick of the outbox's relay takes
-- the list of its drains, which is as long as the tick may make drains.
--
-- Parameters. SHA-256, the perceptual hash, distances on the globe, toISOString, the power in the
-- decay of karma, random bytes and clocks are arguments; so are JSON.stringify of a string, UPPER
-- of the database and toUpperCase, the local calendar, and the tables that a query only joins. The
-- tables follow k8s/base/layer-0-platform/init.sql, where a nonce is a primary key and the request
-- of a submission is not unique. That file gives the date of the last submission the type date,
-- which the driver returns as an object, and packages/core/migrations/002_create_karma_audit.sql
-- gives it text: what the driver makes of it is a parameter.
--
-- Not modelled: EXIF parsing and pixel heuristics (floating point over buffers), the read and
-- review routes, the pauses and connections of the anchor consumer, the gateway's other routes, the
-- score of a road's condition (floating point), the search, routing and language engines, the karma
-- of organisations, the merge of complaints, the clients, the Go chaincode, and deployment. Two
-- submissions whose awaits interleave, and two relays that drain one outbox at once, are not
-- modelled either; what the other relay holds is the list of locked rows.
pub mod Prelude
pub mod Merkle
pub mod RegionCode
pub mod Redis
pub mod Admission
pub mod Karma
pub mod Privacy
pub mod Verification
pub mod Nonce
pub mod Submission
pub mod Chaincode
pub mod Sync
pub mod Network
pub mod Access
pub mod Idempotency
pub mod Outbox
pub mod Circuit
pub mod Anchor
pub mod Adaptive
pub mod Escalation
pub mod Lifecycle
pub mod Canonical
pub mod Sla
pub mod Engines
pub mod ReadCache
