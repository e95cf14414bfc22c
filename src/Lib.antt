-- ===== src/Lib.antt =====
-- A verification library for drenyra-engram, an accounting memory with signed receipts: its pure core,
-- and the purge pipeline of its store.
--
-- The program keeps memories of accounting decisions. A memory moves through a lifecycle that humans
-- gate (internal/core/lifecycle.go); judgments relate two memories and reconciliations compare two
-- amounts, and both are proposed by agents and settled by humans (judgment.go, reconciliation.go).
-- Policies decide which verified principal may do so (internal/authz). Fiscal identifiers, retention
-- policies, rule versions, scope bindings, verification reports and the reconstructibility metric are
-- pure functions of internal/core, which the services of internal/server call with rows that
-- internal/store reads. Evidence objects leave the store by a purge pipeline: a request, one or two
-- approvals, and until then a rejection, a cancellation or a withdrawal, each one transaction of
-- internal/store/purge_store.go that calls the retention, hold and authorization rules.
--
--   Base         shared names; Go strings as lists of bytes, sorting, signed integers
--   Memory       internal/core/types.go: enumerations, scope, the stored memory
--   Lifecycle    internal/core/lifecycle.go: Approve, Reject, Return, Void, SupersedePrev
--   Auth         internal/auth/types.go and errors.go: principals, roles, reason codes
--   Judgment, Reconciliation
--                internal/core/judgment.go and reconciliation.go: confirm, reject, withdraw, supersede
--   Authz        internal/authz: Roles (what the policies share), Approval, Adjudication, Evidence
--   Fiscal       internal/core/ruc.go, and the checks of types.go and retention_policy.go on strings
--   FiscalScope  internal/core/fiscal_scope.go: validation and canonical bytes
--   Retention    internal/core/retention_policy.go: validation, token lists, eligibility, resolution
--   Holds        internal/core/hold.go: validation of holds and commands, the blocking test
--   Purge        internal/core/purge_lifecycle.go and internal/store/purge_store.go. The types;
--                Snapshot and Validate (core); Tables, Reads and Writes (what the SQL statements do);
--                Blockers, Request, Approve, Close and Closing (the five commands); Commands (runs of
--                them). Rows, Agreement, Frames, Steps and the files ending in Steps show that a command
--                is a step of a relation on requests and projection; Sound and History use that. Gates,
--                Approvals and Granted are about approvals, the rest about idempotency keys.
--   Rules        internal/core/rules.go: window overlap, versions in force, status as of an instant
--   Verify       internal/core/verify.go: layers, their merge, the report, the supersession chain; Walk, the
--                supersession layers of internal/server/verify_service.go over the tables of the store
--   Receipts     internal/core/receipt.go, VerifyChainLink of verify.go, and the loop along a chain of
--                internal/server/verify_service.go
--   Reconstruct  internal/core/reconstructibility.go: eligibility, classes, percentage, aggregate
--   Examples     concrete records, and the theorems at them
--
-- How the code is carried over. A function has the name of the source in small letters, with the
-- parameters in the order of the source. A named string type is a data type with one constructor for
-- each of its constants and `other` for the rest. A pointer that may be nil is an Option, a function
-- that changes what it is given returns the changed record, and an `error` is an Option of a data type
-- with one constructor for each code; the texts of errors are left out, those of the details that a
-- verification layer shows are kept. A map that the code only reads is a function; sort.Strings and
-- sort.Slice are insertion sorts. `int` sums that the code bounds are plain numbers; the percentage is
-- computed on 64 bits with its wrap-around. Printing a number takes as many steps as the number plus
-- one, which its digits never use up. The loop of a supersession walk has fuel, of which two more than
-- the stored rows of the walk are enough.
--
-- A command of the store takes the store, what the clock and the generator of ids give it, and answers
-- an error or its result with the store it commits; an error rolls back, so the store is then the one
-- before. A table is the list of its rows, a SELECT by a key the first row that matches, an INSERT fails
-- where a primary key, a UNIQUE or a CHECK that it can meet refuses it, and an UPDATE of a status where
-- the status guard does. Steps that the source spells out in two commands are one function.
--
-- utf8.ValidString and time.Parse are parameters of the validations that call them, the JSON encoder
-- and the SHA-256 digest parameters of the receipt chain and of the purge pipeline, whose receipts are
-- handed to a signer that may refuse. Not modelled: the rest of internal/store (the execution of a purge
-- and everything else that reads or writes files or other tables), HTTP, MCP and the command line,
-- sign-in, key handling, and the TypeScript mirror; of internal/core, receipt payloads and signatures,
-- exports, invoices and period comparison.
pub mod Base
pub mod Memory
pub mod Lifecycle
pub mod Auth
pub mod Judgment
pub mod Reconciliation
pub mod Authz
pub mod Fiscal
pub mod FiscalScope
pub mod Retention
pub mod Holds
pub mod Purge
pub mod Rules
pub mod Verify
pub mod Receipts
pub mod Reconstruct
pub mod Examples
