-- ===== src/Service/Renewal.antt =====
-- What a renewal leaves behind (backend/src/grants/grant_service.py).
use grantlayer.Prelude.{
  String, ◌≡◌, refl, sym, ap, ◌∙◌, Bool, true, false, ◌&&◌, Option, none, some, List, [], ◌∷◌,
  arith, any_where, update_where, first_where, Bool-cases, Option-cases, inl, inr, if-true,
  if-false,
}
use grantlayer.Result.{ok, after, ok-inj}
use grantlayer.Platform.{Platform}
use grantlayer.Models.{Grant}
use grantlayer.Signing.{sign_grant, verify_grant_signature, valid, or_empty}
use grantlayer.Signing.Trust.{IsSound, sign_grant-valid}
use grantlayer.Grants
use grantlayer.Grants.{GrantRow, has_id, in_scope, is_open, set_renewed}
use grantlayer.Database.{Database, Moment}
use grantlayer.Service.{logged, write_renewal, sign_and_renew, renew_found, renew_grant, get_grant}

-- The first row that a lookup finds, after an update that keeps what the lookup tests.
module _ (p q : GrantRow → Bool) (f : GrantRow → GrantRow) (kept : (r : GrantRow) → p (f r) ≡ p r)
    (narrow : (r : GrantRow) → p r ≡ false → q r ≡ false) where
  first_where-update :
      (row : GrantRow) (rows : List GrantRow)
      → first_where p rows ≡ some row
      → q row ≡ true
      → (first_where p (update_where q f rows) ≡ some (f row)) × (any_where q rows ≡ true)
  unfolding first_where update_where any_where
  first_where-update row [] e h = absurd (ground arith)
  first_where-update row (r ∷ rows) e h = elim (Bool-cases (p r)) [
    | inl hit ↦
        let same : r ≡ row = ground arith in
        let h' = rw (sym same) at h in rw (h', kept r, hit) (ap (λ x. some (f x)) same, refl)
    | inr miss ↦
        let rest = first_where-update row rows (sym (if-false (p r) _ _ miss) ∙ e) h in
        rw (narrow r miss, miss) rest
  ]

first_where-hit :
    (p : GrantRow → Bool) (row : GrantRow) (rows : List GrantRow)
    → first_where p rows ≡ some row
    → p row ≡ true
unfolding first_where
first_where-hit p row [] e = absurd (ground arith)
first_where-hit p row (r ∷ rows) e = elim (Bool-cases (p r)) [
  | inl hit ↦ let same : r ≡ row = ground arith in rw (sym same) hit
  | inr miss ↦ first_where-hit p row rows (sym (if-false (p r) _ _ miss) ∙ e)
]

-- What signing sets.
sign_grant-sets :
    (py : Platform) (grant signed : Grant)
    → sign_grant py grant ≡ ok signed
    → signed ≡ record grant {
      signature = some (or_empty signed.signature);
      payload_hash = some (or_empty signed.payload_hash);
      signing_key_id = some (or_empty signed.signing_key_id);
    }
unfolding sign_grant or_empty
sign_grant-sets py grant signed h = elim (Option-cases (py.keyring py.key_id)) [
  | inl e ↦ absurd (ground arith)
  | inr (key, e) ↦ let same = ok-inj (rw (sign_grant, e) at h) in rw (sym same) refl
]

module _ (py : Platform) (at : Moment) (grant_id renewed_by tenant_id workspace_id : String)
    (db : Database) where
  abbrev looked_up : GrantRow → Bool
  looked_up row = has_id grant_id row && in_scope (some tenant_id) (some workspace_id) row

  abbrev open_row : GrantRow → Bool
  open_row = is_open grant_id (some tenant_id) (some workspace_id)

  open_row-narrow : (r : GrantRow) → looked_up r ≡ false → open_row r ≡ false
  unfolding is_open
  open_row-narrow r h = ground arith

  open_row-open : (r : GrantRow) → looked_up r ≡ true → r.grant.revoked ≡ false → open_row r ≡ true
  unfolding is_open
  open_row-open r h e = ground arith

  looked_up-update :
      (v signature hash key : String) (r : GrantRow)
      → looked_up (set_renewed v signature hash key r) ≡ looked_up r
  unfolding set_renewed
  looked_up-update v signature hash key r = refl

  get-first :
      (rows : List GrantRow) (row : GrantRow)
      → first_where looked_up rows ≡ some row
      → Grants.get grant_id (some tenant_id) (some workspace_id) rows ≡ some row.grant
  unfolding Grants.get
  get-first rows row h =
      ap (λ (o : Option GrantRow). elim o [ none ↦ none | some r ↦ some r.grant ]) h

  get-none :
      (rows : List GrantRow)
      → first_where looked_up rows ≡ none
      → Grants.get grant_id (some tenant_id) (some workspace_id) rows ≡ none
  unfolding Grants.get
  get-none rows h = ap (λ (o : Option GrantRow). elim o [ none ↦ none | some r ↦ some r.grant ]) h

  -- The row of the grant that was read is updated, and is the one that is read afterwards.
  renew-get :
      (v signature hash key : String) (row : GrantRow)
      → first_where looked_up db.grants ≡ some row
      → row.grant.revoked ≡ false
      → let out =
          Grants.renew grant_id v signature hash key
            (some tenant_id)
            (some workspace_id)
            db.grants in
        (out.0 ≡ true)
        × (Grants.get grant_id (some tenant_id) (some workspace_id) out.1
            ≡ some (set_renewed v signature hash key row).grant)
  unfolding Grants.renew
  renew-get v signature hash key row found open_ =
      let set = set_renewed v signature hash key in
      let hit = first_where-hit looked_up row db.grants found in
      let step =
        first_where-update looked_up open_row set (looked_up-update v signature hash key)
          open_row-narrow row db.grants found (open_row-open row hit open_) in
      (step.1, get-first (update_where open_row set db.grants) (set row) step.0)

  -- The grant that a renewal writes is the signed one.
  write_renewal-get :
      (v : String) (row : GrantRow) (signed : Grant)
      → first_where looked_up db.grants ≡ some row
      → row.grant.revoked ≡ false
      → sign_grant py (record row.grant { valid_until = v }) ≡ ok signed
      → let out =
          write_renewal py at grant_id renewed_by tenant_id workspace_id row.grant signed db in
        (out.0 ≡ some signed) × (get_grant grant_id tenant_id workspace_id out.1 ≡ some signed)
  unfolding write_renewal logged get_grant set_renewed
  write_renewal-get v row signed found open_ e =
      let sets = sign_grant-sets py (record row.grant { valid_until = v }) signed e in
      let until : signed.valid_until ≡ v = ap (λ (g : Grant). g.valid_until) sets in
      let step =
        renew-get signed.valid_until (or_empty signed.signature) (or_empty signed.payload_hash)
          (or_empty signed.signing_key_id) row found open_ in
      let dated = λ (w : String).
        let signature = some (or_empty signed.signature) in
        record row.grant {
          valid_until = w;
          signature = signature;
          payload_hash = some (or_empty signed.payload_hash);
          signing_key_id = some (or_empty signed.signing_key_id);
        } in
      rw step.0 (refl, step.1 ∙ ap (λ w. some (dated w)) until ∙ ap some (sym sets))

  -- A renewal that returns a grant found its row, unrevoked, and signed it with the new date.
  sign_and_renew-get :
      (v : String) (g : Grant) (db' : Database) (row : GrantRow)
      → first_where looked_up db.grants ≡ some row
      → row.grant.revoked ≡ false
      → sign_and_renew py at grant_id v renewed_by tenant_id workspace_id db row.grant
        ≡ ok (some g, db')
      → (get_grant grant_id tenant_id workspace_id db' ≡ some g)
        × ((grant : Grant) × (sign_grant py (record grant { valid_until = v }) ≡ ok g))
  unfolding sign_and_renew
  sign_and_renew-get v g db' row found open_ h =
      after (sign_grant py (record row.grant { valid_until = v })) _ h λ s es h1.
        let kept = write_renewal-get v row s found open_ es in
        let out = ok-inj h1 in
        let same : s ≡ g = ground (arith, kept.0, ap (λ p. p.0) out) in
        (
          ap (λ p. get_grant grant_id tenant_id workspace_id p.1) (sym out) ∙ kept.1 ∙ ap some same,
          (row.grant, es ∙ ap ok same),
        )

  renew_grant-kept :
      (v : String) (g : Grant) (db' : Database)
      → renew_grant py at grant_id v renewed_by tenant_id workspace_id db ≡ ok (some g, db')
      → (get_grant grant_id tenant_id workspace_id db' ≡ some g)
        × ((grant : Grant) × (sign_grant py (record grant { valid_until = v }) ≡ ok g))
  unfolding renew_grant renew_found get_grant
  renew_grant-kept v g db' h =
      let run = renew_found py at grant_id v renewed_by tenant_id workspace_id db in
      elim (Option-cases (first_where looked_up db.grants)) [
        | inl absent ↦ let gone = ap run (get-none db.grants absent) in absurd (cc (h, gone))
        | inr (row, found) ↦
            let there = ap run (get-first db.grants row found) in
            elim (Bool-cases row.grant.revoked) [
              | inl gone ↦
                  let out = sym (if-true row.grant.revoked _ _ gone) ∙ sym there ∙ h in
                  absurd (ground arith)
              | inr open_ ↦
                  sign_and_renew-get v g db' row found open_
                    (sym (if-false row.grant.revoked _ _ open_) ∙ sym there ∙ h)
            ]
      ]

-- A renewal that returns a grant returns what its lookup finds afterwards: the grant with the new
-- end date and a signature that is valid over it, where the library's check accepts what it signs.
pub renew_grant-get :
    (py : Platform) (at : Moment) (grant_id v renewed_by tenant_id workspace_id : String)
    (db db' : Database) (g : Grant)
    → IsSound py
    → renew_grant py at grant_id v renewed_by tenant_id workspace_id db ≡ ok (some g, db')
    → (get_grant grant_id tenant_id workspace_id db' ≡ some g)
      × (g.valid_until ≡ v)
      × (verify_grant_signature py g ≡ valid)
renew_grant-get py at grant_id v renewed_by tenant_id workspace_id db db' g sound h =
    let kept = renew_grant-kept py at grant_id renewed_by tenant_id workspace_id db v g db' h in
    let (grant, signed) = kept.1 in
    (
      kept.0,
      ap (λ (x : Grant). x.valid_until)
          (sign_grant-sets py (record grant { valid_until = v }) g signed),
      sign_grant-valid py sound (record grant { valid_until = v }) g signed,
    )
