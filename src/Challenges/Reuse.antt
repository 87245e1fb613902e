-- ===== src/Challenges/Reuse.antt =====
-- Sequences of calls on the challenge table (backend/src/auth/challenges.py).
use grantlayer.Prelude.{
  String, ◌≡◌, ◌↔◌, ◌≢◌, ap, ◌∙◌, sym, true, false, ◌&&◌, Option, none, some, List, [], ◌∷◌, ◌++◌,
  arith, eq_iff, any_where, any_where-append, first_where, All-append, Option-cases, Bool-cases,
  inl, inr, ◌⊎◌, refl,
}
use grantlayer.Result.{ok}
use grantlayer.Models.{Challenge}
use grantlayer.Challenges.{
  ChallengeRow, matches, has_id, insert, or_default, create_challenge, get_challenge, mark_used,
  ChallengeResult, valid, read_and_check, finish, validate_challenge,
}
use grantlayer.Challenges.SingleUse.{
  IsUsable, check_found, IsSpent, Step, creates, validates, Reach, here, next, mark-has_id,
  mark-All, mark-keeps, first_where-any, get-used,
}

mark-IsSpent :
    (now id challenge_id : String) (rows : List ChallengeRow)
    → IsSpent challenge_id rows
    → IsSpent challenge_id (mark_used now id rows)
mark-IsSpent now id challenge_id rows h = record {
  all = mark-keeps now id challenge_id rows h.all;
  there = mark-has_id now id challenge_id rows ∙ h.there;
}

finish-IsSpent :
    (now id challenge_id : String) (result : ChallengeResult) (rows : List ChallengeRow)
    → IsSpent challenge_id rows
    → IsSpent challenge_id (finish now id result rows)
unfolding finish
finish-IsSpent now id challenge_id valid rows h = mark-IsSpent now id challenge_id rows h
finish-IsSpent now id challenge_id _ rows h = h

insert-IsSpent :
    (challenge_id : String) (row : ChallengeRow) (rows rows' : List ChallengeRow)
    → insert row rows ≡ ok rows'
    → IsSpent challenge_id rows
    → IsSpent challenge_id rows'
unfolding insert
insert-IsSpent challenge_id row rows rows' e h =
    let fresh : any_where (has_id row.challenge.id) rows ≡ false = ground arith in
    let added : rows' ≡ rows ++ row ∷ [] = ground arith in
    rw added (record {
      all =
          (All-append (λ r. has_id challenge_id r ≡ true → r.challenge.status ≡ "used") rows
              (row ∷ [])).1
            (
              h.all,
              (
                λ same.
                    absurd (clash ((eq_iff row.challenge.id challenge_id).0 same) fresh h.there),
                tt,
              ),
            );
      there = any_where-append (has_id challenge_id) rows (row ∷ []) h.there;
    })
  where
    clash :
        row.challenge.id ≡ challenge_id
        → any_where (has_id row.challenge.id) rows ≡ false
        → any_where (has_id challenge_id) rows ≡ true
        → ⊥
    clash same absent present = cc (ap (λ i. any_where (has_id i) rows) same, absent, present)

inserted :
    (id now expires subject_id action resource : String) (tenant_id workspace_id : Option String)
    (rows rows' : List ChallengeRow)
    → create_challenge id now expires subject_id action resource tenant_id workspace_id rows
      ≡ ok rows'
    → (row : ChallengeRow) × (insert row rows ≡ ok rows')
unfolding create_challenge
inserted id now expires subject_id action resource none w rows rows' e = absurd (ground arith)
inserted id now expires subject_id action resource (some t) w rows rows' e = (
  record {
    challenge = record {
      subject_id = subject_id;
      action = action;
      resource = resource;
      id = id;
      created_at = now;
      expires_at = expires;
      used_at = none;
      status = "active";
    };
    tenant_id = t;
    workspace_id = or_default w;
  },
  ground arith,
)

Step-IsSpent :
    (challenge_id : String) {rows rows' : List ChallengeRow}
    → Step rows rows'
    → IsSpent challenge_id rows
    → IsSpent challenge_id rows'
unfolding validate_challenge
Step-IsSpent challenge_id {rows} (creates id now ex s a r t w {rows'} e) h =
    let (row, put) = inserted id now ex s a r t w rows rows' e in
    insert-IsSpent challenge_id row rows rows' put h
Step-IsSpent challenge_id {rows} (validates now id s a r t) h =
    finish-IsSpent now id challenge_id (read_and_check now id s a r t rows) rows h

Reach-IsSpent :
    (challenge_id : String) {rows rows' : List ChallengeRow}
    → IsSpent challenge_id rows
    → Reach rows rows'
    → IsSpent challenge_id rows'
Reach-IsSpent challenge_id h here = h
Reach-IsSpent challenge_id h (next r s) =
    Step-IsSpent challenge_id s (Reach-IsSpent challenge_id h r)

get-there :
    (challenge_id : String) (tenant_id : Option String) (rows : List ChallengeRow) (c : Challenge)
    → get_challenge challenge_id tenant_id rows ≡ some c
    → any_where (has_id challenge_id) rows ≡ true
unfolding get_challenge
get-there challenge_id t rows c e =
    elim (Option-cases (first_where (λ r. has_id challenge_id r && matches t r.tenant_id) rows)) [
      | inl absent ↦ absurd (ground arith)
      | inr (row, found) ↦
          first_where-any (λ r. has_id challenge_id r && matches t r.tenant_id)
            (has_id challenge_id) row rows (λ r k. ground arith) found
    ]

-- A validation says "valid" exactly when the lookup finds a usable challenge.
validate_challenge-found :
    (now challenge_id subject_id action resource : String) (tenant_id : Option String)
    (rows : List ChallengeRow)
    → ((validate_challenge now challenge_id subject_id action resource tenant_id rows).0.0 ≡ valid)
      ↔ ((c : Challenge) × (get_challenge challenge_id tenant_id rows ≡ some c)
          × IsUsable now subject_id action resource c)
unfolding validate_challenge read_and_check
validate_challenge-found now challenge_id subject_id action resource t rows =
    check_found now subject_id action resource (get_challenge challenge_id t rows)

-- Where a tenant is given, the row is one of that tenant.
pub IsOf : Option String → ChallengeRow → Type 0
IsOf none row = Unit
IsOf (some t) row = row.tenant_id ≡ t

matches-IsOf :
    (challenge_id : String) (tenant_id : Option String) (row : ChallengeRow)
    → (has_id challenge_id row && matches tenant_id row.tenant_id ≡ true)
      ↔ ((row.challenge.id ≡ challenge_id) × IsOf tenant_id row)
unfolding IsOf
matches-IsOf challenge_id none row = (
  λ h. (ground (arith, eq_iff row.challenge.id challenge_id), tt),
  λ h. let e = h.0 in ground (arith, eq_iff row.challenge.id challenge_id),
)
matches-IsOf challenge_id (some t) row =
    let one = eq_iff row.challenge.id challenge_id in
    let two = eq_iff row.tenant_id t in
    (
      λ h. (ground (arith, one), ground (arith, two)),
      λ h. let e = h.0 in let f = h.1 in ground (arith, one, two),
    )

-- Some row has the one property, and the first that does has the other.
pub First : (P Q : ChallengeRow → Type 0) → List ChallengeRow → Type 0
First P Q [] = ⊥
First P Q (row ∷ rows) = (P row × Q row) ⊎ ((P row → ⊥) × First P Q rows)

get_challenge-First :
    (challenge_id : String) (tenant_id : Option String) (Q : Challenge → Type 0)
    (rows : List ChallengeRow)
    → ((c : Challenge) × (get_challenge challenge_id tenant_id rows ≡ some c) × Q c)
      ↔ First
          (λ row. (row.challenge.id ≡ challenge_id) × IsOf tenant_id row)
          (λ row. Q row.challenge)
          rows
unfolding get_challenge first_where First
get_challenge-First challenge_id t Q [] =
    (λ h. absurd (let e = h.1 in ground arith), λ h. elim h [ ])
get_challenge-First challenge_id t Q (row ∷ rows) =
    let here = matches-IsOf challenge_id t row in
    let later = get_challenge-First challenge_id t Q rows in
    elim (Bool-cases (has_id challenge_id row && matches t row.tenant_id)) [
      | inl hit ↦
          rw (get_challenge, hit)
            (
              λ (c, e, q). inl (here.0 hit, rw (sym (some-inj e)) at q),
              λ h. elim h [
                | inl k ↦ (row.challenge, refl, k.1)
                | inr k ↦ absurd (k.0 (here.0 hit))
              ],
            )
      | inr miss ↦
          rw (get_challenge, miss)
            (
              λ h. inr (λ k. absurd (let e = here.1 k in cc (e, miss)), later.0 h),
              λ h. elim h [
                | inl k ↦ absurd (let e = here.1 k.0 in cc (e, miss))
                | inr k ↦ later.1 k.1
              ],
            )
    ]
  where
    some-inj : {c d : Challenge} → some c ≡ some d → c ≡ d
    some-inj e = ground arith

-- A validation says "valid" exactly where the table has a row of that id, and of that tenant where
-- one is given, and the first such row is not expired, not used, and was made for this subject,
-- action and resource.
pub validate_challenge-valid :
    (now challenge_id subject_id action resource : String) (tenant_id : Option String)
    (rows : List ChallengeRow)
    → ((validate_challenge now challenge_id subject_id action resource tenant_id rows).0.0 ≡ valid)
      ↔ First
          (λ row. (row.challenge.id ≡ challenge_id) × IsOf tenant_id row)
          (λ row. IsUsable now subject_id action resource row.challenge)
          rows
validate_challenge-valid now challenge_id subject_id action resource t rows =
    let found = validate_challenge-found now challenge_id subject_id action resource t rows in
    let first = get_challenge-First challenge_id t (IsUsable now subject_id action resource) rows in
    (λ h. first.0 (found.0 h), λ h. found.1 (first.1 h))

accepted-IsSpent :
    (now challenge_id subject_id action resource : String) (tenant_id : Option String)
    (rows : List ChallengeRow)
    → (validate_challenge now challenge_id subject_id action resource tenant_id rows).0.0 ≡ valid
    → IsSpent challenge_id
        (validate_challenge now challenge_id subject_id action resource tenant_id rows).1
unfolding validate_challenge finish
accepted-IsSpent now challenge_id s a r t rows h =
    let found = (validate_challenge-found now challenge_id s a r t rows).0 h in
    rw (h, finish)
      (record {
        all = mark-All now challenge_id rows;
        there =
            mark-has_id now challenge_id challenge_id rows
            ∙ get-there challenge_id t rows found.0 found.1;
      })

-- After a validation said "valid", no validation of that id says so again: not for any subject,
-- action, resource or tenant, and not after any further creations and validations.
pub accepted_once :
    (now challenge_id subject_id action resource : String) (tenant_id : Option String)
    (rows rows' : List ChallengeRow) (now' subject_id' action' resource' : String)
    (tenant_id' : Option String)
    → (validate_challenge now challenge_id subject_id action resource tenant_id rows).0.0 ≡ valid
    → Reach (validate_challenge now challenge_id subject_id action resource tenant_id rows).1 rows'
    → (validate_challenge now' challenge_id subject_id' action' resource' tenant_id' rows').0.0
      ≢ valid
accepted_once now challenge_id s a r t rows rows' now' s' a' r' t' h reach again =
    let spent =
      Reach-IsSpent challenge_id (accepted-IsSpent now challenge_id s a r t rows h) reach in
    let found = (validate_challenge-found now' challenge_id s' a' r' t' rows').0 again in
    found.2.1 (get-used challenge_id t' rows' found.0 spent found.1)
