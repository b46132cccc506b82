-- ===== src/Lib.antt =====
-- The learner and content domains of the AIEOS backend: attempts and their submission, the
-- deterministic evaluation of a submission, the assessments that a teacher records for a class, the
-- commands that write, review and publish content, the kernel that decides who may run a command, and
-- the outbox of integration events.
--
-- A learner works on an attempt (src/aieos/domains/learning/domain/attempt.py) and answers its
-- questions by response items (response_item.py). `transition_in_progress_attempt_to_submitted`
-- (submit.py) binds a submission to the attempt and copies the answers into an ordered snapshot
-- (submission.py). The evaluator (src/aieos/domains/assessment/domain/evaluation_policy_v1.py) takes a
-- request of questions and responses (evaluation_input.py) and returns an evaluation of items and of
-- evidence for objectives (evaluation.py). Classroom assessments (classroom_assessment.py) stand
-- beside these.
--
-- A content (src/aieos/domains/content/domain/content.py) has a history of versions (version.py),
-- each with a frozen payload. `create_content_in_uow` (application/in_uow.py) makes the content,
-- `append_version_in_uow` (application/services.py) a version, the review commands
-- (application/review.py) submit the current version and record the decision on it, and `publish`
-- (application/publish.py) publishes an approved one. A command asks the authorization kernel
-- (src/aieos/platform/security/authorization), then works in one unit of work on the tables
-- (infrastructure/persistence/repositories.py), where it writes also an audit record
-- (src/aieos/platform/security/audit), an event, and, in a review, an intent for the workflow
-- engine (src/aieos/platform/workflows), which dispatchers deliver. Its outcome is kept under the
-- idempotency key of the request. Changes of the domains leave messages in an outbox table, whose
-- rows the dispatcher (src/aieos/platform/events) claims, publishes and finalizes.
--
-- Files:
--   Prelude          shared names, lookups in lists; Prelude/Exceptions has the result type of a
--                    Python call
--   Python           str, datetime, UUID, sorting and the `seen` sets of loops
--   Learning         learning/domain: Vocabulary (identities.py, lifecycle.py, response_kind.py,
--                    errors.py), ResponseItem (response_item.py), Attempt (attempt.py), Snapshot and
--                    Submission (submission.py), Submit (submit.py)
--   Assessment       assessment/domain: Vocabulary (evaluation_vocabulary.py, lifecycle.py, result.py,
--                    errors.py), Objectives and Questions (evaluation_input.py), Items
--                    (evaluation.py), Answers, Evidence and Policy (evaluation_policy_v1.py),
--                    Classroom (classroom_assessment.py)
--   Content          content/domain: Vocabulary (states.py, origin.py, errors), Json and Payload
--                    (version.py), Version (version.py, content.py, publication.py), Review
--                    (review.py); Database (infrastructure/persistence/repositories.py) with the
--                    statements in Database/Rows; Commands (application/models.py) with Create
--                    (in_uow.py), Append (services.py), Review, Service, Decision (review.py) and Publish
--                    (publish.py)
--   Events           platform/events: Outbox (persistence/repositories.py, models.py, constants.py),
--                    Dispatcher (nats/dispatcher.py, nats/publisher.py), ContentEvents
--                    (content_events.py, cloudevents.py)
--   Security         platform/security: Authorization (decisions.py) with Reads (repository.py) and
--                    Decisions (kernel.py, principal_classification.py), Audit (audit/models.py,
--                    audit/actions.py)
--   Workflows        platform/workflows: Intents (models.py, constants.py,
--                    persistence/repositories.py), Dispatch (persistence/repositories.py) with
--                    Dispatch/Gateway (temporal/dispatchers.py), over the statements of Tables
-- Each component has its definitions in the file of its name and its theorems in the children; the
-- Examples have the tests.
--
-- How the program is modelled:
--   - A call returns `ok` with its value or `err` with its exception, of which the class is kept and
--     the message is not. A frozen dataclass is a record, and its constructor is a function that runs
--     `__post_init__`; `dataclasses.replace` runs it again, and so do the methods here.
--   - Arguments have the types that the program annotates, so that its `isinstance` checks pass.
--     Where a caller may pass more than one type (the entries of a stored snapshot, question types and
--     response kinds, the values of a payload) the model has a data type of the cases.
--   - `uuid.UUID` is its 128-bit number; what `generate()` returns is an argument. A `datetime` is
--     whether it is aware, and its instant. `str` is the list of its code points, with `strip`, order
--     and equality; `lower` changes ASCII letters only, since its result is only compared with two
--     ASCII words.
--   - A dict or a set is a list in the order of insertion. `sort` and `sorted` are the stable
--     insertion sort. All loops are structural recursion, and no fuel is used.
--   - The rows of the outbox are a list, and a statement of SQL is a function of it. Which rows other
--     transactions have locked is an argument, and of rows that are available at one moment the first
--     of the list is taken. The publisher is an argument, and so is what other workers do to the rows
--     while it is awaited. The intents of workflows are treated alike, with the workflow engine as an
--     argument.
--   - The tables of content are lists as well. A unit of work is rolled back when a command raises, so
--     a command returns the new tables with its result, or the exception alone. That a transaction
--     sees the rows of its tenant only is the tenant that the reads take as an argument. The unique
--     constraints of decisions and publications are guards of their inserts.
--   - The text of a UUID, JSON text, SHA-256, the fingerprints, the schema registry and the injected
--     policies are parameters (`Ports`). An append is that of a version without asset references, and
--     the provenance of its source is an argument.
--   - The status columns that the kernel reads are text, which it coerces.
--   - The fields of one record are written in one order here, and exceptions of one class that several
--     checks raise are one value, so the order of such checks is not seen.
--
-- Not modelled: the persistence of the learning and assessment domains, the teaching domain, asset
-- references and AI materialization of content, the read models, HTTP, the message broker and the
-- workflow engine.
pub mod Prelude
pub mod Python
pub mod Learning
pub mod Assessment
pub mod Events
pub mod Content
pub mod Security
pub mod Workflows
