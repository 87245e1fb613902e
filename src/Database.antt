-- ===== src/Database.antt =====
-- The tables that one transaction writes, and what the clock and the id generator give a call.
use grantlayer.Prelude.{String, Option, List}
use grantlayer.Models.{AuditEvent, GrantRequest, GrantExecution}
use grantlayer.Grants.{GrantRow}

pub record RequestRow : Type 0 where
  pub request : GrantRequest
  pub tenant_id : Option String
  pub workspace_id : Option String

pub record ExecutionRow : Type 0 where
  pub execution : GrantExecution
  pub tenant_id : String
  pub workspace_id : String

pub record Database : Type 0 where
  pub grants : List GrantRow
  pub requests : List RequestRow
  pub executions : List ExecutionRow
  pub audit_events : List AuditEvent

-- `now` and the time of 24 hours before, as `isoformat` writes them, and fresh uuids.
pub record Moment : Type 0 where
  pub now : String
  pub day_ago : String
  pub grant_id : String
  pub event_id : String
