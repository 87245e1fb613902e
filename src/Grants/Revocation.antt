-- ===== src/Grants/Revocation.antt =====
-- Revoked grants under the statements on the table, and in the decision.
use grantlayer.Prelude.{
  ℕ, String, ◌≡◌, refl, ◌≢◌, ap, ◌∙◌, sym, Bool, true, false, Option, none, some, List, [], ◌∷◌,
  ◌++◌, arith, eq_iff, select, update_where, any_where, any_where-append, page-All, select-All, All,
  Any, All-append, All-map, All-sort_by, before, page, map, sort_by, Bool-cases, inl, inr,
}
use grantlayer.Result.{ok}
use grantlayer.Models.{Grant, AccessRequest, PolicyResult}
use grantlayer.Platform.{Platform, DateTime}
use grantlayer.Policy.Engine.{instant, evaluate_access}
use grantlayer.Policy.Engine.Denials.{Chosen}
use grantlayer.Policy.Engine.Access.{approved-Permits}
use grantlayer.Grants.{
  GrantRow, in_scope, has_id, is_open, is_consumable, set_revoked, set_renewed, add_use, create,
  inserted, revoke, renew, try_consume_use, list,
}

-- Every grant of this id is revoked, and there is one.
pub record IsRevoked (grant_id : String) (rows : List GrantRow) : Type 0 where
  pub all : All (λ row. has_id grant_id row ≡ true → row.grant.revoked ≡ true) rows
  pub there : any_where (has_id grant_id) rows ≡ true

-- One statement on the grant table, by any caller with any arguments.
pub data Step (rows : List GrantRow) : List GrantRow → Type 0 where
  revokes :
      (now grant_id revoked_by reason : String) (tenant_id workspace_id : Option String)
      → Step rows (revoke now grant_id revoked_by reason tenant_id workspace_id rows).1
  renews :
      (grant_id until signature payload_hash key_id : String)
      (tenant_id workspace_id : Option String)
      → Step rows (renew grant_id until signature payload_hash key_id tenant_id workspace_id rows).1
  consumes : (grant_id : String) → Step rows (try_consume_use grant_id rows).1
  creates :
      (grant : Grant) (tenant_id workspace_id : String) {rows' : List GrantRow}
      → create grant tenant_id workspace_id rows ≡ ok rows'
      → Step rows rows'

pub data Reach (rows : List GrantRow) : List GrantRow → Type 0 where
  here : Reach rows rows
  next : {rows' rows'' : List GrantRow} → Reach rows rows' → Step rows' rows'' → Reach rows rows''

-- An update that keeps the ids keeps what ids there are.
has_id-update :
    (grant_id : String) (p : GrantRow → Bool) (f : GrantRow → GrantRow)
    → ((row : GrantRow) → (f row).grant.id ≡ row.grant.id)
    → (rows : List GrantRow)
    → any_where (has_id grant_id) (update_where p f rows) ≡ any_where (has_id grant_id) rows
unfolding update_where any_where
has_id-update grant_id p f ids [] = refl
has_id-update grant_id p f ids (r ∷ rs) = elim (Bool-cases (p r)) [
  | inl hit ↦ rw (hit, ids r, has_id-update grant_id p f ids rs)
  | inr miss ↦ rw (miss, has_id-update grant_id p f ids rs)
]

-- An update that keeps the ids and revokes or leaves alone keeps a grant revoked.
IsRevoked-update :
    (grant_id : String) (p : GrantRow → Bool) (f : GrantRow → GrantRow)
    → ((row : GrantRow) → (f row).grant.id ≡ row.grant.id)
    → ((row : GrantRow) → row.grant.revoked ≡ true → (f row).grant.revoked ≡ true)
    → (rows : List GrantRow) → IsRevoked grant_id rows
    → IsRevoked grant_id (update_where p f rows)
unfolding update_where any_where
IsRevoked-update grant_id p f ids keeps rows h = record {
  all = alls rows h.all;
  there = has_id-update grant_id p f ids rows ∙ h.there;
}
  where
    alls :
        (rs : List GrantRow)
        → All (λ row. has_id grant_id row ≡ true → row.grant.revoked ≡ true) rs
        → All (λ row. has_id grant_id row ≡ true → row.grant.revoked ≡ true) (update_where p f rs)
    alls [] k = tt
    alls (r ∷ rs) k = elim (Bool-cases (p r)) [
      | inl hit ↦ rw hit (λ e. keeps r (k.0 (rw (ids r) at e)), alls rs k.1)
      | inr miss ↦ rw miss (k.0, alls rs k.1)
    ]

create-ok :
    (grant : Grant) (tenant_id workspace_id : String) (rows rows' : List GrantRow)
    → create grant tenant_id workspace_id rows ≡ ok rows'
    → (any_where (has_id grant.id) rows ≡ false)
      × (rows' ≡ rows ++ inserted grant tenant_id workspace_id ∷ [])
unfolding create
create-ok grant t w rows rows' e = ground arith

create-IsRevoked :
    (grant_id : String) (grant : Grant) (tenant_id workspace_id : String)
    (rows rows' : List GrantRow)
    → create grant tenant_id workspace_id rows ≡ ok rows'
    → IsRevoked grant_id rows
    → IsRevoked grant_id rows'
unfolding inserted
create-IsRevoked grant_id grant t w rows rows' e h =
    let done = create-ok grant t w rows rows' e in
    let row = inserted grant t w in
    rw done.1 (record {
      all =
          (All-append (λ r. has_id grant_id r ≡ true → r.grant.revoked ≡ true) rows (row ∷ [])).1 (
            h.all,
            (λ same. absurd (clash ((eq_iff grant.id grant_id).0 same) done.0 h.there), tt),
          );
      there = any_where-append (has_id grant_id) rows (row ∷ []) h.there;
    })
  where
    clash :
        grant.id ≡ grant_id
        → any_where (has_id grant.id) rows ≡ false
        → any_where (has_id grant_id) rows ≡ true
        → ⊥
    clash same absent present = cc (ap (λ i. any_where (has_id i) rows) same, absent, present)

Step-IsRevoked :
    (grant_id : String) {rows rows' : List GrantRow}
    → Step rows rows'
    → IsRevoked grant_id rows
    → IsRevoked grant_id rows'
unfolding revoke renew try_consume_use
Step-IsRevoked grant_id {rows} (revokes now g by reason t w) h =
    IsRevoked-update grant_id (is_open g t w) (set_revoked by reason now) (λ r. refl) (λ r e. refl)
      rows h
Step-IsRevoked grant_id {rows} (renews g u s p k t w) h =
    IsRevoked-update grant_id (is_open g t w) (set_renewed u s p k) (λ r. refl) (λ r e. e) rows h
Step-IsRevoked grant_id {rows} (consumes g) h =
    IsRevoked-update grant_id (is_consumable g) add_use (λ r. refl) (λ r e. e) rows h
Step-IsRevoked grant_id {rows} (creates grant t w {rows'} e) h =
    create-IsRevoked grant_id grant t w rows rows' e h

-- Once every grant of an id is revoked, it is so in every table that revocations, renewals,
-- consumptions and insertions can lead to.
pub Reach-IsRevoked :
    (grant_id : String) {rows rows' : List GrantRow}
    → IsRevoked grant_id rows
    → Reach rows rows'
    → IsRevoked grant_id rows'
Reach-IsRevoked grant_id h here = h
Reach-IsRevoked grant_id h (next r s) = Step-IsRevoked grant_id s (Reach-IsRevoked grant_id h r)

-- The ids are those of a primary key.
abbrev pub IsKeyed : List GrantRow → Type 0
IsKeyed [] = Unit
IsKeyed (row ∷ rows) = (any_where (has_id row.grant.id) rows ≡ false) × IsKeyed rows

absent-All :
    (grant_id : String) (rows : List GrantRow)
    → any_where (has_id grant_id) rows ≡ false
    → All (λ r. has_id grant_id r ≡ true → r.grant.revoked ≡ true) rows
unfolding any_where
absent-All grant_id [] h = tt
absent-All grant_id (r ∷ rows) h =
    (λ e. absurd (ground arith), absent-All grant_id rows (ground arith))

module _ (now grant_id revoked_by reason : String) (tenant_id workspace_id : Option String) where
  abbrev open_row : GrantRow → Bool
  open_row = is_open grant_id tenant_id workspace_id

  abbrev revoked_row : GrantRow → GrantRow
  revoked_row = set_revoked revoked_by reason now

  has_id-open : (row : GrantRow) → open_row row ≡ true → row.grant.id ≡ grant_id
  unfolding is_open
  has_id-open row h = (eq_iff row.grant.id grant_id).0 (ground arith)

  keyed-away :
      (row : GrantRow) (rows : List GrantRow)
      → row.grant.id ≡ grant_id
      → any_where (has_id row.grant.id) rows ≡ false
      → any_where (has_id grant_id) (update_where open_row revoked_row rows) ≡ false
  unfolding set_revoked
  keyed-away row rows same away =
      has_id-update grant_id open_row revoked_row (λ r. refl) rows
      ∙ ap (λ i. any_where (has_id i) rows) (sym same)
      ∙ away

  update-IsRevoked :
      (rows : List GrantRow)
      → IsKeyed rows
      → any_where open_row rows ≡ true
      → IsRevoked grant_id (update_where open_row revoked_row rows)
  unfolding update_where any_where set_revoked
  update-IsRevoked [] k e = absurd (ground arith)
  update-IsRevoked (row ∷ rows) k e = elim (Bool-cases (open_row row)) [
    | inl hit ↦
        let same = has_id-open row hit in
        rw hit (record {
          all = (
            λ _. refl,
            absent-All grant_id (update_where open_row revoked_row rows)
                (keyed-away row rows same k.0),
          );
          there = rw ((eq_iff row.grant.id grant_id).1 same);
        })
    | inr miss ↦
        let rest = update-IsRevoked rows k.1 (rw miss at e) in
        rw miss (record {
          all = (
            λ same.
                absurd (
                  cc (keyed-away row rows ((eq_iff row.grant.id grant_id).0 same) k.0, rest.there)),
            rest.all,
          );
          there = ground (arith, rest.there);
        })
  ]

  -- A revocation that reports success leaves the grant of that id revoked, where the ids of the
  -- table differ.
  pub revoke-IsRevoked :
      (rows : List GrantRow)
      → IsKeyed rows
      → (revoke now grant_id revoked_by reason tenant_id workspace_id rows).0 ≡ true
      → IsRevoked grant_id (revoke now grant_id revoked_by reason tenant_id workspace_id rows).1
  unfolding revoke
  revoke-IsRevoked rows k e = update-IsRevoked rows k e

abbrev RevokedIf : String → Grant → Type 0
RevokedIf grant_id grant = grant.id ≡ grant_id → grant.revoked ≡ true

All-grants :
    (P : Grant → Type 0) (rows : List GrantRow)
    → All (λ r. P r.grant) rows
    → All P (map (λ r. r.grant) rows)
All-grants P [] h = tt
All-grants P (r ∷ rows) h = (h.0, All-grants P rows h.1)

-- What holds of every grant of the table holds of every grant that is listed.
pub list-All :
    (P : Grant → Type 0) (tenant_id workspace_id : Option String) (limit : Option ℕ) (offset : ℕ)
    (rows : List GrantRow)
    → All (λ r. P r.grant) rows
    → All P (list tenant_id workspace_id limit offset rows)
unfolding list
list-All P t w limit offset rows h =
    let Q = λ (r : GrantRow). P r.grant in
    let lt = λ (a b : GrantRow). before b.grant.created_at a.grant.created_at in
    let sorted = sort_by lt (select (in_scope t w) rows) in
    All-grants P (page limit offset sorted) (
      page-All Q limit offset sorted
        ((All-sort_by Q lt (select (in_scope t w) rows)).1 (select-All Q (in_scope t w) rows h)))

list-RevokedIf :
    (grant_id : String) (tenant_id workspace_id : Option String) (limit : Option ℕ) (offset : ℕ)
    (rows : List GrantRow)
    → IsRevoked grant_id rows
    → All (RevokedIf grant_id) (list tenant_id workspace_id limit offset rows)
list-RevokedIf grant_id t w limit offset rows h =
    list-All (RevokedIf grant_id) t w limit offset rows
      (All-map rows (λ r k e. k ((eq_iff r.grant.id grant_id).1 e)) h.all)

no_choice :
    (py : Platform) (request : AccessRequest) (now : ℕ) (r : PolicyResult) (grant_id : String)
    (grants : List Grant)
    → All (RevokedIf grant_id) grants
    → r.matched_grant_id ≡ some grant_id
    → Any (Chosen py request now r) grants
    → ⊥
no_choice py request now r grant_id [] h m c = c
no_choice py request now r grant_id (g ∷ grants) h m (inr c) =
    no_choice py request now r grant_id grants h.1 m c
no_choice py request now r grant_id (g ∷ grants) h m (inl c) =
    let same : g.id ≡ grant_id = cc (m, c.1.1) in cc (h.0 same, c.0.active)

-- Once the grant of an id is revoked, no approval over what the table lists names it: not at once
-- nor after any further statements on the table.
pub revoked-not-approved :
    (py : Platform) (request : AccessRequest) (now : DateTime) (grant_id : String)
    (tenant_id workspace_id : Option String) (rows rows' : List GrantRow) (r : PolicyResult)
    → IsRevoked grant_id rows
    → Reach rows rows'
    → evaluate_access py request (list tenant_id workspace_id none 0 rows') now ≡ ok r
    → r.approved ≡ true
    → r.matched_grant_id ≢ some grant_id
revoked-not-approved py request now grant_id t w rows rows' r h reach e a m =
    let grants = list t w none 0 rows' in
    no_choice py request (instant now) r grant_id grants
      (list-RevokedIf grant_id t w none 0 rows' (Reach-IsRevoked grant_id h reach)) m
      (approved-Permits py request grants now r e a)
