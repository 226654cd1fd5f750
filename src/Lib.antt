-- ===== src/Lib.antt =====
-- A model of the consensus protocol of the MSA adjudication workbench of ADG-Lang, under
-- tools/msa-adjudication-workbench. Two primary annotators A and B and two adjudicators J1 and J2
-- decide a task version in rounds; a worker keeps its state in D1 or PostgreSQL.
--
-- Parts, and the files that model them:
-- - Consensus: tools/msa-adjudication-workbench/src/consensus.js. Consensus/States has the state
--   machine (`ALLOWED_TRANSITIONS`, `assertConsensusTransition`), Consensus/Coverage the comparison
--   of what two annotations cover, Consensus/Decisions `decisionMap` and
--   `countNovelPrimaryDecisions`, Consensus/Agreement the metrics up to
--   `computeIndependentAgreement`, Consensus/EventHash `consensusEventHash`.
-- - Store: tools/msa-adjudication-workbench/src/consensus-store.js, which moves a task by one
--   transaction that updates its row and adds an event. Store/Tables has the rows, with the columns
--   of tools/msa-adjudication-workbench/migrations/0004_consensus_state.sql, Store/Calls the form
--   of a call, Store/Keeps the rules for invariants, Store/Gives those for results,
--   Store/Transition `transitionConsensusTask` and the lookups, Store/Registration
--   `ensureConsensusTask` and what it calls, Store/Reissue `createReissuedRound`.
-- - Protocol: the documents of tools/msa-adjudication-workbench/public/protocol.js, which a packet,
--   two annotations, an adjudication and a ratification are. Protocol/Files has `unpackPortalFile`,
--   Protocol/Packets `validatePacket`, Protocol/Coverage `validateAnnotationCoverage`,
--   Protocol/Resolutions `validateAdjudicationResolutions`, Protocol/Roots the values of each
--   Merkle root, and Protocol/Bindings the roots and the bindings.
-- - Worker: tools/msa-adjudication-workbench/src/index.js. Worker/Eligibility has
--   `validateConsensusEligibility`, which admits a submission, and
--   `requiredRepositoryTaskAssignment`; Worker/Drafts `calculateDraftProgress`.
-- - Journal: the write journal, of tools/msa-adjudication-workbench/src/database.js and
--   tools/msa-adjudication-workbench/src/cpoly-recovery.js. A write is put into a table of D1 before
--   it is sent to PostgreSQL, which keeps a receipt of it; an entry whose outcome is unknown is sent
--   again, and so is one that a restored PostgreSQL has lost. Journal/Errors has the classes of
--   errors, Journal/Payload the payload of an entry, Journal/Entries the table and its statements,
--   Journal/Postgres the transactions with receipts, Journal/Calls the form of a call with its
--   faults, Journal/Writes `executeMutatingOperations`, Journal/Replay `replayRecoveryJournal`,
--   `completeRecoveryReplay` and `cleanupRecoveryJournal`, Journal/Backed what the journal and
--   PostgreSQL agree on. Journal/Calls/Triples and Journal/Calls/Successes have the rules for calls.
-- - Recovery: the requests of the backup service, of
--   tools/msa-adjudication-workbench/src/cpoly-recovery.js. Recovery/Nonces has
--   `verifySignedCpolyRequest` and `pruneSignedNonces`, Recovery/OpenPgp
--   `looksLikeOpenPgpCiphertext`, Recovery/Archives the description of an archive and its chunks.
-- - Hashing: `CanonicalHashBuilder` of tools/msa-adjudication-workbench/public/protocol.js.
-- - Sql: the placeholder translation of tools/msa-adjudication-workbench/src/database.js.
-- - Js: JavaScript values, and the texts the language makes of them. Common: shared notation and
--   lemmas. Tests: runs at concrete inputs.
--
-- How the code is represented: a thrown error is a result `err`, with the source's message as a
-- constructor or a text. A value of unknown shape, such as an annotation, is a JavaScript value,
-- and reading a field gives `undefined` where the source gives it; a number is an integer or
-- carries the text that the language prints for it, and the texts of integers are those below
-- 10^21, which have no exponent. A `Map` or `Set` is the list of its entries. A call of the store
-- is a function of the database and of what other requests do at each of its awaits, so that every
-- interleaving of whole statements and batches is a value of that argument. A call of the journal
-- is a function of the state, of what happens at each wait (what other requests do, and whether
-- the statement fails before or after it ran) and of the readings of the clock. All loops are
-- structural recursion, but for the digits of a number n, with the fuel n, since a round divides
-- by 10, and the `while (true)` of `completeRecoveryReplay`, whose fuel counts the rounds: one
-- more than the journal has entries is enough, since a round settles one at least.
--
-- What is a parameter: floating point arithmetic (`Floats`), the SHA-256 digest and HMAC, the
-- UTF-8 encoder, `JSON.parse`, `Date.now()`, `crypto.randomUUID()`, the patterns of
-- `containsUnsafePublicText`, and the rounding of a percentage. For the journal: what a statement
-- does to the store of PostgreSQL, encryption, base64, and `Number` of a value. A request of the
-- journal gets its request id as an argument.
--
-- Not modelled: CHECK constraints but for those of the journal and the nonces, and foreign keys
-- but for those of a registration; capitals of letters beyond ASCII; sparse arrays, symbols,
-- functions and objects with accessors, values compared by reference; the worker's other routes
-- (tools/msa-adjudication-workbench/src/index.js), the HTTP bridge to PostgreSQL of
-- tools/msa-adjudication-workbench/src/database.js, the life of the backups, their manifests and
-- the restores of tools/msa-adjudication-workbench/src/cpoly-recovery.js, the column `updated_at`
-- of the runtime state and the form of a payload hash in the tables of the journal; the portal's
-- pages and the external services.
pub mod Common
pub mod Js
pub mod Hashing
pub mod Sql
pub mod Consensus
pub mod Protocol
pub mod Journal
pub mod Recovery
pub mod Store
pub mod Worker
pub mod Tests
