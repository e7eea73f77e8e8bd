-- ===== src/Lib.antt =====
-- kavita-ingest (src/kavita_ingest): the core that publishes media files into a library. An
-- approved plan lists items; for each item the engine writes a staged file, verifies it, links it
-- to its destination without ever replacing a file, and then keeps, removes or archives the source.
-- A journal in SQLite records the state of every item, so that a later process recovers what an
-- earlier one left. Beside it stand the rate limiter of the providers, the safety check of
-- archives, the preview of a rollback, the store of plans with the decisions on which they rest,
-- the decisions that bind a series to a provider's run, and the client that asks the providers.
--
-- Files and their code:
--   Prelude, Prelude/*      shared names, Boolean tests, lists, association lists
--   Filesystem/State        POSIX paths, directories and shared inodes, as filesystem.py uses them
--   Filesystem/Kept         what it means that a change leaves alone what stood before
--   Journal/States, Rows, Repository
--                           apply_journal.py: states, rows, and every method of JournalRepository
--   Journal/Keeping, Replay, Sound, Ended
--                           the log of events replayed against the rows, and runs whose state was set
--   Effect, Effect/*        actions over files and journal, with exceptions, faults and crashes; the
--                           rules by which their invariants are proved
--   Linux, Linux/Probe      LinuxFilesystem of filesystem.py; Linux/Kept, Methods and Archive are about
--                           what its methods leave alone
--   Engine/*                apply_engine.py: Item, Preparation, Versions, Capabilities, Execute, Failures,
--                           Recover, Runs, Eligible, Prepare, Abandon are its code; Touch, NoClobber, Assurance,
--                           SourceSafe, Outcome and what lies below Eligible and Prepare are about it
--   Json, Json/Equal        JSON values as Python reads them
--   Plans/Rows, Step        the tables of the plans, and statements in one transaction on them
--   Plans/Document          the checks of a payload in planning.py
--   Plans/Store, Import     plan_store.py; Plans/Immutable and Operations are about it
--   Decisions, Decisions/*  decisions.py: the repository, and the check of an ISBN in Decisions/Isbn
--   Providers/*             provider_store.py and providers/client.py; Limited and Requests are about them
--   Rollback, Rollback/*    rollback.py, and the inspection of a recovery in apply_engine.py
--   RateLimit, RateLimit/*  rate_limit.py
--   ArchiveSafety, ArchiveSafety/*
--                           archive_safety.py; what lies below it is about it
--   RunGroups, RunGroups/*  run_groups.py
--   Repairs, Repairs/Distinct
--                           the collisions in library_repair.py
--   Sequences, Sequences/RoundTrip
--                           SequenceNumber of domain.py
--   Tests, Tests/*          concrete worlds, and the theorems applied to them
--
-- State and effects. A world is the files, the journal's tables and a count of the effects so far.
-- An action takes the environment and a world to an outcome (it returns, raises, or the process
-- dies) and a world. Every system call and every transaction asks the environment for a fault: it
-- is carried out, fails, or the process dies before it. A crash in the model runs no handler; what
-- the theorems say of all faults they say of a crash between any two effects. A transaction is
-- written whole or not at all, as SQLite does. The rate limiter and the run groups are functions on
-- their tables, one call a transaction.
--
-- Parameters. The format writers and verifiers, the versions of packages and tools, the hash
-- function, the clock, the random names, case folding, the stripping of texts, Python's json and
-- the HTTP transport are arguments. A writer reads the source, and changes no other path than
-- that of its staged file, which it replaces; its temporary files beside it are left out. Nothing
-- else is assumed of the arguments. Times are natural numbers. Paths are absolute and resolved.
--
-- Fuel. Only RateLimit.wait_and_reserve runs on fuel, the number of its attempts; two are enough
-- where nobody else writes to the tables. The provider client hands it its own. Every other loop
-- runs over a list.
--
-- A plan and its decisions. PlanStore imports a payload as a draft, derives its index rows and
-- preconditions, and supersedes unapplied plans of the same sources; a decision invalidates the
-- plans that rest on another one; the engine applies a plan only if it is eligible. The store's
-- imports and approvals take a connection, with the committed tables and those that its open
-- transaction sees; the decisions and the eligibility are functions on the tables as one connection
-- sees them. The journal's tables and those of the plans are apart in the model. Sequence numbers
-- are read from ASCII texts, with the limit of 4300 digits that Python's int has by default. A text of JSON is read and written by parameters.
--
-- Not modelled: what builds a new plan (projection, naming, planning_service.py), the resolution of
-- its paths and the checks of files before a run, the publication report, the process lock and the
-- migration of the database that come before a run is applied, recovered or abandoned, the
-- queries and the normalisation of the single providers, matching, the audit of a library, the planning
-- and making of its repairs, and the
-- terminal dialogue.
pub mod ArchiveSafety
pub mod Decisions
pub mod Effect
pub mod Engine
pub mod Filesystem
pub mod Journal
pub mod Json
pub mod Linux
pub mod Plans
pub mod Prelude
pub mod Providers
pub mod RateLimit
pub mod Repairs
pub mod Rollback
pub mod RunGroups
pub mod Sequences
pub mod Tests
