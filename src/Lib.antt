-- ===== src/Lib.antt =====
-- GrantLayer: grants of a subject to act, the decision on a request against them, the workflow by
-- which a grant comes to be, and a log of every decision that cannot be rewritten unnoticed.
--
-- Parts, the code of each (paths from the root of the repository) and the files here:
-- - Prelude, Result: lists, texts, integers; exceptions as values.
-- - Platform: what comes from outside the repository (date parsing, JSON, SHA-256, Ed25519, key
--   files), as one record of functions that every theorem takes as a parameter.
-- - Models (backend/src/core/models.py): the dataclasses, field for field.
-- - Policy/Constraints (backend/src/policy/constraints.py): check_constraints.
-- - Policy/Engine (backend/src/policy/policy_engine.py): evaluate_access. A grant is assessed by
--   `assess`, the loop over the grants is `scan`.
-- - Audit (backend/src/audit/audit_log.py): the log is the list of its rows in the order of their
--   insertion; append_event on both databases, verify_audit_hash_chain, and in Audit/Report the
--   lists and the report.
-- - Signing (backend/src/core/crypto_signing.py): canonical_grant_payload, sign_grant,
--   verify_grant_signature.
-- - Grants, Requests, Executions (backend/src/core/repositories_sqlalchemy.py with
--   backend/src/grants/grants.py, grant_requests.py, grant_executions.py): a table is the list of its
--   rows, a statement is one function on it. Requests/Decisions is the workflow on the database.
-- - Validation (backend/src/core/validation.py), Challenges (backend/src/auth/challenges.py).
-- - Database: the tables that one transaction writes, and the readings of the clock and of the id
--   generator that a call is given.
-- - Exercise (backend/src/demo/demo_action.py): handle_demo_action, which puts the parts together:
--   the grants of the workspace are evaluated, the signature of the grant named is verified, the
--   challenge validated, a use taken, and the execution and the event are written. Exercise has the
--   steps, Exercise/Handler their order.
-- - Service (backend/src/grants/grant_service.py): GrantService; Service/Webhooks its asynchronous
--   twin, whose database part is the same, with what it tells a webhook.
-- - RateLimit (backend/src/core/rate_limiter.py): RateLimiter and RedisRateLimiter; Promise states
--   what a limiter promises, on the plain list of the calls let in.
-- - Policy/Approval (backend/src/policy/approval_rules.py): evaluate_approval_requirements, on the
--   signals that Policy/Approval/Inputs reads; Policy/Approval/Clear states when it asks for nothing.
-- - Policy/Lifecycle (backend/src/policy/approval_lifecycle.py): the request and its helpers;
--   Policy/Lifecycle/Operations builds it and carries out transitions.
-- - Policy/Agents (backend/src/policy/agent_permissions.py): evaluate_agent_permission;
--   Policy/Agents/Profiles the profiles and the assignments (agent_permission_profiles.py and
--   agent_permission_assignments.py beside it).
-- - Policy/Requirements (backend/src/policy/policy_requirements.py): the evaluation of a policy pack;
--   its children Rules and Deadlines have the single rules, Reports the reports of other parts.
-- - Evidence (backend/src/evidence/evidence_completeness.py): the score of the evidence of an
--   execution and its readiness for audit.
-- - Examples: a concrete platform and runs.
--
-- A transaction that raises leaves its tables as they were, so a call is a function to a result with
-- the new tables. Instants count microseconds. All loops are structural recursion; nothing runs on
-- fuel. Texts of time stamps are compared as texts where the code does so. Locks are modelled as
-- steps that do not overlap; the two transactions of a challenge's validation are one step.
--
-- Not modelled: the HTTP interface, operators and tokens, workspaces, the delivery of webhooks,
-- evidence bundles and anchors, the other policy reports, the asynchronous repositories (the same
-- statements again), the script that Redis runs, approval requests of another shape than the code
-- builds, migrations, clients and tools.
pub mod Prelude
pub mod Result
pub mod Platform
pub mod Models
pub mod Policy
pub mod Audit
pub mod Signing
pub mod Grants
pub mod Validation
pub mod Challenges
pub mod Database
pub mod Requests
pub mod Executions
pub mod Exercise
pub mod Service
pub mod RateLimit
pub mod Evidence
mod Examples
