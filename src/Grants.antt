-- ===== src/Grants.antt =====
-- The grant table (SqlAlchemyGrantRepository of backend/src/core/repositories_sqlalchemy.py, which
-- backend/src/grants/grants.py calls). The table is the list of its rows; a statement that the
-- database runs at once is one function.
pub mod Uses
pub mod Scope
pub mod Revocation
use grantlayer.Prelude.{
  ℕ, ◌+◌, String, Bool, true, false, not, ◌&&◌, Option, none, some, List, [], ◌∷◌, ◌++◌, map, ◌==◌,
  ltb, before, is_empty, select, sort_by, length, page, update_where, any_where, first_where,
  if◌then◌else◌,
}
use grantlayer.Result.{Result, ok, err, value_error, database_error}
use grantlayer.Models.{Grant}

pub record GrantRow : Type 0 where
  pub grant : Grant
  pub tenant_id : String
  pub workspace_id : String

-- `.where(tenant_id == …)`, added where the argument is not None.
abbrev pub matches : Option String → String → Bool
matches none value = true
matches (some wanted) value = value == wanted

abbrev pub in_scope : Option String → Option String → GrantRow → Bool
in_scope tenant_id workspace_id row =
    matches tenant_id row.tenant_id && matches workspace_id row.workspace_id

abbrev pub has_id : String → GrantRow → Bool
has_id grant_id row = row.grant.id == grant_id

unfoldable pub get : String → Option String → Option String → List GrantRow → Option Grant
get grant_id tenant_id workspace_id rows =
    elim (first_where (λ row. has_id grant_id row && in_scope tenant_id workspace_id row) rows) [
      | none ↦ none
      | some row ↦ some row.grant
    ]

-- Newest first; rows of one `created_at` keep the order of the table, which SQL leaves open.
unfoldable pub list : Option String → Option String → Option ℕ → ℕ → List GrantRow → List Grant
list tenant_id workspace_id limit offset rows =
    map (λ row. row.grant)
      (page limit offset (
        sort_by (λ a b. before b.grant.created_at a.grant.created_at)
          (select (in_scope tenant_id workspace_id) rows)))

unfoldable pub count : Option String → Option String → List GrantRow → ℕ
count tenant_id workspace_id rows = length (select (in_scope tenant_id workspace_id) rows)

-- The row that an INSERT makes: the revocation columns are left at their defaults.
unfoldable pub inserted : Grant → String → String → GrantRow
inserted grant tenant_id workspace_id = record {
  grant = record grant {
    revoked = false;
    revoked_by = none;
    revoked_reason = none;
    revoked_at = none;
  };
  tenant_id = tenant_id;
  workspace_id = workspace_id;
}

-- The id is the primary key.
unfoldable pub create : Grant → String → String → List GrantRow → Result (List GrantRow)
unfolding inserted
create grant tenant_id workspace_id rows =
    if is_empty workspace_id
    then err (value_error "workspace_id is required")
    else if any_where (has_id grant.id) rows
    then err database_error
    else ok (rows ++ inserted grant tenant_id workspace_id ∷ [])

-- WHERE of `revoke` and `renew`: the row is there, not revoked, and in scope.
unfoldable pub is_open : String → Option String → Option String → GrantRow → Bool
is_open grant_id tenant_id workspace_id row =
    has_id grant_id row && (not row.grant.revoked && in_scope tenant_id workspace_id row)

unfoldable pub set_revoked : String → String → String → GrantRow → GrantRow
set_revoked revoked_by reason revoked_at row = record row {
  grant = record row.grant {
    revoked = true;
    revoked_by = some revoked_by;
    revoked_reason = some reason;
    revoked_at = some revoked_at;
  };
}

-- `now` is the text that `_now_utc_iso` gives.
unfoldable pub revoke :
    String
    → String
    → String
    → String
    → Option String
    → Option String
    → List GrantRow
    → Bool × List GrantRow
unfolding is_open set_revoked
revoke now grant_id revoked_by reason tenant_id workspace_id rows = (
  any_where (is_open grant_id tenant_id workspace_id) rows,
  update_where (is_open grant_id tenant_id workspace_id) (set_revoked revoked_by reason now) rows,
)

unfoldable pub set_renewed : String → String → String → String → GrantRow → GrantRow
set_renewed new_valid_until signature payload_hash signing_key_id row = record row {
  grant = record row.grant {
    valid_until = new_valid_until;
    signature = some signature;
    payload_hash = some payload_hash;
    signing_key_id = some signing_key_id;
  };
}

unfoldable pub renew :
    String
    → String
    → String
    → String
    → String
    → Option String
    → Option String
    → List GrantRow
    → Bool × List GrantRow
unfolding is_open set_renewed
renew grant_id new_valid_until signature payload_hash signing_key_id tenant_id workspace_id rows = (
  any_where (is_open grant_id tenant_id workspace_id) rows,
  update_where (is_open grant_id tenant_id workspace_id)
      (set_renewed new_valid_until signature payload_hash signing_key_id) rows,
)

unfoldable pub has_uses : Grant → Bool
has_uses grant = elim grant.max_uses [ none ↦ true | some m ↦ ltb grant.use_count m ]

unfoldable pub is_consumable : String → GrantRow → Bool
is_consumable grant_id row = has_id grant_id row && has_uses row.grant

unfoldable pub add_use : GrantRow → GrantRow
add_use row = record row { grant = record row.grant { use_count = row.grant.use_count + 1 } }

unfoldable pub try_consume_use : String → List GrantRow → Bool × List GrantRow
unfolding is_consumable has_uses add_use
try_consume_use grant_id rows =
    (any_where (is_consumable grant_id) rows, update_where (is_consumable grant_id) add_use rows)
