-- ===== src/Grants/Scope.antt =====
-- Isolation: the rows of other tenants and workspaces under revocation and renewal.
use grantlayer.Prelude.{
  String, ◌≡◌, refl, Bool, true, not, ◌&&◌, ◌==◌, some, List, [], ◌∷◌, arith, select, update_where,
  Bool-cases, inl, inr,
}
use grantlayer.Grants.{GrantRow, in_scope, is_open, set_revoked, set_renewed, revoke, renew}

-- The rows that are not of the tenant and the workspace.
abbrev pub others : String → String → List GrantRow → List GrantRow
others tenant_id workspace_id =
    select (λ row. not (row.tenant_id == tenant_id && row.workspace_id == workspace_id))

-- An update whose test implies the tenant and the workspace leaves the other rows as they are.
others-update_where :
    (tenant_id workspace_id : String) (p : GrantRow → Bool) (f : GrantRow → GrantRow)
    → ((row : GrantRow) → p row ≡ true → in_scope (some tenant_id) (some workspace_id) row ≡ true)
    → ((row : GrantRow)
        → in_scope (some tenant_id) (some workspace_id) (f row)
          ≡ in_scope (some tenant_id) (some workspace_id) row)
    → (rows : List GrantRow)
    → others tenant_id workspace_id (update_where p f rows) ≡ others tenant_id workspace_id rows
unfolding update_where select
others-update_where t w p f inside keeps [] = refl
others-update_where t w p f inside keeps (row ∷ rows) = elim (Bool-cases (p row)) [
  | inl hit ↦
      let here : in_scope (some t) (some w) row ≡ true = inside row hit in
      rw hit (ground (arith, keeps row, here, others-update_where t w p f inside keeps rows))
  | inr miss ↦ rw miss (ground (arith, others-update_where t w p f inside keeps rows))
]

-- A revocation with a tenant and a workspace leaves every row whose tenant or workspace is another
-- as it was.
pub revoke-others :
    (now grant_id revoked_by reason tenant_id workspace_id : String) (rows : List GrantRow)
    → others tenant_id workspace_id
        (revoke now grant_id revoked_by reason (some tenant_id) (some workspace_id) rows).1
      ≡ others tenant_id workspace_id rows
unfolding revoke
revoke-others now grant_id revoked_by reason t w rows =
    others-update_where t w (is_open grant_id (some t) (some w)) (set_revoked revoked_by reason now)
      (λ row h. ground arith) (λ row. refl) rows

-- A renewal with a tenant and a workspace leaves every row of the others as it was.
pub renew-others :
    (grant_id until signature payload_hash key_id tenant_id workspace_id : String)
    (rows : List GrantRow)
    → others tenant_id workspace_id
        (renew grant_id until signature payload_hash key_id
          (some tenant_id)
          (some workspace_id)
          rows).1
      ≡ others tenant_id workspace_id rows
unfolding renew
renew-others grant_id until signature payload_hash key_id t w rows =
    others-update_where t w (is_open grant_id (some t) (some w))
      (set_renewed until signature payload_hash key_id) (λ row h. ground arith) (λ row. refl) rows
