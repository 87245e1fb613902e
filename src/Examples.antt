-- ===== src/Examples.antt =====
-- Concrete runs: the properties applied to small tables, requests and clocks, under a platform whose
-- parts are plain functions.
mod Fixtures
mod Decisions
mod Tables
mod Logs
mod Workflow
mod Limiter
mod Services
mod Approvals
mod Agents
mod Scores
mod Packs
