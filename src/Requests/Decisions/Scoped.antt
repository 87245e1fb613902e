-- ===== src/Requests/Decisions/Scoped.antt =====
-- What a lookup in a scope and an update of a table mean, row by row.
use grantlayer.Prelude.{
  String, ◌≡◌, refl, ◌≢◌, ap, sym, ◌∙◌, ◌⊎◌, ◌↔◌, inl, inr, Bool, true, false, ◌&&◌, Option, none,
  some, List, [], ◌∷◌, arith, eq_iff, opt_eq→eq, Any, update_where, first_where, Bool-cases,
  is_empty, concat,
}
use grantlayer.Models.{GrantRequest}
use grantlayer.Grants
use grantlayer.Grants.{GrantRow, is_open, set_revoked}
use grantlayer.Database.{RequestRow, Moment}
use grantlayer.Requests.Decisions.{revoke_linked}
use grantlayer.Requests.{matches, has_id, get, update_request}

-- The workspace of a row, where one is asked for.
pub IsIn : Option String → Option String → Type 0
IsIn none workspace = Unit
IsIn (some w) workspace = workspace ≡ some w

-- The row holds the request, of this id, in the tenant, and in the workspace where one is given.
pub record IsPlaced (request_id tenant : String) (workspace_id : Option String)
    (request : GrantRequest) (row : RequestRow) : Type 0 where
  pub holds : row.request ≡ request
  pub named : row.request.id ≡ request_id
  pub of_tenant : row.tenant_id ≡ some tenant
  pub of_workspace : IsIn workspace_id row.workspace_id

matches-IsIn : (w v : Option String) → matches w v ≡ true → IsIn w v
unfolding IsIn
matches-IsIn none v h = tt
matches-IsIn (some w) v h = opt_eq→eq v (some w) h

-- What a lookup in a scope finds is a row of the table in that scope.
pub get-IsPlaced :
    (request_id tenant : String) (workspace_id : Option String) (request : GrantRequest)
    (rows : List RequestRow)
    → get request_id (some tenant) workspace_id rows ≡ some request
    → Any (IsPlaced request_id tenant workspace_id request) rows
unfolding get first_where IsIn
get-IsPlaced id t w q [] h = absurd (ground arith)
get-IsPlaced id t w q (r ∷ rows) h =
    elim (Bool-cases (has_id id r && (matches (some t) r.tenant_id && matches w r.workspace_id))) [
      | inl hit ↦ inl (record {
        holds = let k = rw (get, hit) at h in ground arith;
        named = (eq_iff r.request.id id).0 (ground arith);
        of_tenant = matches-IsIn (some t) r.tenant_id (ground arith);
        of_workspace = matches-IsIn w r.workspace_id (ground arith);
      })
      | inr miss ↦ inr (get-IsPlaced id t w q rows (rw (get, miss) at h))
    ]

-- Row by row, what has the property is changed so, and all else stays.
pub Changed : {A : Type 0} → (A → Type 0) → (A → A) → List A → List A → Type 0
Changed P f [] [] = Unit
Changed P f [] (y ∷ ys) = ⊥
Changed P f (x ∷ xs) [] = ⊥
Changed P f (x ∷ xs) (y ∷ ys) = ((P x × (y ≡ f x)) ⊎ ((P x → ⊥) × (y ≡ x))) × Changed P f xs ys

pub update_where-Changed :
    {A : Type 0} (P : A → Type 0) (p : A → Bool) (f : A → A)
    → ((x : A) → (p x ≡ true) ↔ P x)
    → (xs : List A) → Changed P f xs (update_where p f xs)
unfolding update_where Changed
update_where-Changed P p f same [] = tt
update_where-Changed P p f same (x ∷ xs) = elim (Bool-cases (p x)) [
  | inl hit ↦ rw hit (inl ((same x).0 hit, refl), update_where-Changed P p f same xs)
  | inr miss ↦ rw miss (
    inr (λ k. absurd (let e = (same x).1 k in cc (e, miss)), refl),
    update_where-Changed P p f same xs,
  )
]

pub Changed-none :
    {A : Type 0} (P : A → Type 0) (f : A → A)
    → ((x : A) → P x → ⊥)
    → (xs : List A) → Changed P f xs xs
unfolding Changed
Changed-none P f never [] = tt
Changed-none P f never (x ∷ xs) = (inr (never x, refl), Changed-none P f never xs)

pub update_request-Changed :
    (request_id : String) (f : GrantRequest → GrantRequest) (rows : List RequestRow)
    → Changed
        (λ row. row.request.id ≡ request_id)
        (λ row. record row { request = f row.request })
        rows
        (update_request request_id f rows)
update_request-Changed id f rows =
    update_where-Changed (λ (row : RequestRow). row.request.id ≡ id) (has_id id)
      (λ row. record row { request = f row.request })
      (λ row. ((eq_iff row.request.id id).0, (eq_iff row.request.id id).1)) rows

some_text : {a b : String} → some a ≡ some b → a ≡ b
some_text e = ground arith

some-inj : {a b : GrantRequest} → some a ≡ some b → a ≡ b
some-inj e = ground arith

get-hit :
    (request_id : String) (row : RequestRow) (rows : List RequestRow)
    → has_id request_id row ≡ true
    → get request_id none none (row ∷ rows) ≡ some row.request
unfolding get first_where
get-hit id row rows h = rw (get, h) refl

get-miss :
    (request_id : String) (row : RequestRow) (rows : List RequestRow)
    → has_id request_id row ≡ false
    → get request_id none none (row ∷ rows) ≡ get request_id none none rows
unfolding get first_where
get-miss id row rows h = rw (get, h) refl

-- What is read again by the id has been changed.
pub get-update :
    (request_id : String) (f : GrantRequest → GrantRequest) (rows : List RequestRow)
    (u : GrantRequest)
    → ((q : GrantRequest) → (f q).id ≡ q.id)
    → get request_id none none (update_request request_id f rows) ≡ some u
    → (q : GrantRequest) × (u ≡ f q)
unfolding update_where
get-update id f [] u ids h = absurd (unfold get first_where in ground arith)
get-update id f (r ∷ rows) u ids h = elim (Bool-cases (has_id id r)) [
  | inl hit ↦
      let r' : RequestRow = record r { request = f r.request } in
      let rest = update_request id f rows in
      let k : get id none none (r' ∷ rest) ≡ some u = rw hit at h in
      let l = get-hit id r' rest (rw (ids r.request) hit) in (r.request, some-inj (sym k ∙ l))
  | inr miss ↦
      let rest = update_request id f rows in
      let k : get id none none (r ∷ rest) ≡ some u = rw miss at h in
      get-update id f rows u ids (sym (get-miss id r rest miss) ∙ k)
]

-- The request names the grant of the row, by a text that is not empty; the row is of the tenant, and
-- of the workspace where one is given; and it is not revoked yet.
pub record IsLinked (tenant : String) (workspace_id grant_id : Option String) (row : GrantRow)
    : Type 0 where
  pub names : grant_id ≡ some row.grant.id
  pub named : row.grant.id ≢ ""
  pub of_tenant : row.tenant_id ≡ tenant
  pub of_workspace : IsIn workspace_id (some row.workspace_id)
  pub unrevoked : row.grant.revoked ≡ false

-- The row, revoked.
abbrev pub taken_back : String → String → String → GrantRow → GrantRow
taken_back by reason now row = record row {
  grant = record row.grant {
    revoked = true;
    revoked_by = some by;
    revoked_reason = some reason;
    revoked_at = some now;
  };
}

open-IsLinked :
    (tenant g : String) (workspace_id : Option String) (row : GrantRow)
    → is_empty g ≡ false
    → (is_open g (some tenant) workspace_id row ≡ true) ↔ IsLinked tenant workspace_id (some g) row
unfolding is_open IsIn
open-IsLinked t g none row n =
    let one = eq_iff row.grant.id g in
    let two = eq_iff row.tenant_id t in
    (
      λ h.
          let e : row.grant.id ≡ g = ground (arith, one) in
          record {
            names = ap some (sym e);
            named = λ k. let l = (eq_iff g "").1 (sym e ∙ k) in cc (l, n);
            of_tenant = ground (arith, two);
            of_workspace = tt;
            unrevoked = ground arith;
          },
      λ l.
          let a = one.1 (sym (some_text l.names)) in
          let b = two.1 l.of_tenant in let c = l.unrevoked in ground arith,
    )
open-IsLinked t g (some w) row n =
    let one = eq_iff row.grant.id g in
    let two = eq_iff row.tenant_id t in
    let three = eq_iff row.workspace_id w in
    (
      λ h.
          let e : row.grant.id ≡ g = ground (arith, one) in
          record {
            names = ap some (sym e);
            named = λ k. let l = (eq_iff g "").1 (sym e ∙ k) in cc (l, n);
            of_tenant = ground (arith, two);
            of_workspace = ap some (three.0 (ground arith));
            unrevoked = ground arith;
          },
      λ l.
          let a = one.1 (sym (some_text l.names)) in
          let b = two.1 l.of_tenant in
          let c = l.unrevoked in let d = three.1 (some_text l.of_workspace) in ground arith,
    )

-- The revocation that goes with a request's takes back the grant that the request names, and
-- nothing else.
pub revoke_linked-Changed :
    (at : Moment) (operator_id reason tenant : String) (grant_id workspace_id : Option String)
    (grants : List GrantRow)
    → Changed
        (IsLinked tenant workspace_id grant_id)
        (taken_back operator_id (concat ("Revoked from request: " ∷ reason ∷ [])) at.now)
        grants
        (revoke_linked at operator_id reason tenant grant_id workspace_id grants)
unfolding revoke_linked
revoke_linked-Changed at by reason t none w grants =
    Changed-none (IsLinked t w none)
      (taken_back by (concat ("Revoked from request: " ∷ reason ∷ [])) at.now)
      (λ row l. absurd (let e = l.names in ground arith)) grants
revoke_linked-Changed at by reason t (some g) w grants = elim (Bool-cases (is_empty g)) [
  | inl e ↦ rw e (
      Changed-none (IsLinked t w (some g))
        (taken_back by (concat ("Revoked from request: " ∷ reason ∷ [])) at.now)
        (λ row l. absurd (l.named (sym (some_text l.names) ∙ (eq_iff g "").0 e))) grants)
  | inr e ↦ rw e (
      unfold Grants.revoke set_revoked in
      update_where-Changed (IsLinked t w (some g)) (is_open g (some t) w)
        (taken_back by (concat ("Revoked from request: " ∷ reason ∷ [])) at.now)
        (λ row. open-IsLinked t g w row e) grants)
]
