-- ===== src/Challenges/SingleUse.antt =====
-- When a challenge may be used, and when it is spent (backend/src/auth/challenges.py).
use grantlayer.Prelude.{
  String, ◌≡◌, refl, ◌≢◌, ◌↔◌, ◌∙◌, ap, sym, Bool, true, false, ◌&&◌, Option, none, some, List, [],
  ◌∷◌, arith, eq_iff, before, update_where, any_where, first_where, All, Bool-cases, Option-cases,
  inl, inr,
}
use grantlayer.Result.{ok}
use grantlayer.Models.{Challenge}
use grantlayer.Challenges.{
  ChallengeRow, matches, has_id, create_challenge, get_challenge, set_used, mark_used, valid,
  check_challenge, validate_challenge,
}

-- The challenge may be used at the time, by the subject, for the action on the resource.
abbrev pub IsUsable : String → String → String → String → Challenge → Type 0
IsUsable now subject_id action resource c =
    (before c.expires_at now ≡ false)
    × (c.status ≢ "used")
    × (c.subject_id ≡ subject_id)
    × (c.action ≡ action)
    × (c.resource ≡ resource)

check-IsUsable :
    (now subject_id action resource : String) (c : Challenge)
    → (check_challenge now subject_id action resource (some c) ≡ valid)
      ↔ IsUsable now subject_id action resource c
unfolding check_challenge
check-IsUsable now subject_id action resource c = ground (
  arith,
  eq_iff c.status "used",
  eq_iff c.subject_id subject_id,
  eq_iff c.action action,
  eq_iff c.resource resource,
)

pub check_found :
    (now subject_id action resource : String) (found : Option Challenge)
    → (check_challenge now subject_id action resource found ≡ valid)
      ↔ ((c : Challenge) × (found ≡ some c) × IsUsable now subject_id action resource c)
check_found now subject_id action resource none =
    (λ h. absurd (unfold check_challenge in cc h), λ h. absurd (cc h.1))
check_found now subject_id action resource (some c) = (
  λ h. (c, refl, (check-IsUsable now subject_id action resource c).0 h),
  λ h. rw h.1 ((check-IsUsable now subject_id action resource h.0).1 h.2),
)

-- Every row of the id is marked as used, and there is one.
pub record IsSpent (challenge_id : String) (rows : List ChallengeRow) : Type 0 where
  pub all : All (λ row. has_id challenge_id row ≡ true → row.challenge.status ≡ "used") rows
  pub there : any_where (has_id challenge_id) rows ≡ true

-- One call on the challenge table, with any arguments and at any time.
pub data Step (rows : List ChallengeRow) : List ChallengeRow → Type 0 where
  creates :
      (id now expires subject_id action resource : String) (tenant_id workspace_id : Option String)
      {rows' : List ChallengeRow}
      → create_challenge id now expires subject_id action resource tenant_id workspace_id rows
        ≡ ok rows'
      → Step rows rows'
  validates :
      (now challenge_id subject_id action resource : String) (tenant_id : Option String)
      → Step rows (validate_challenge now challenge_id subject_id action resource tenant_id rows).1

pub data Reach (rows : List ChallengeRow) : List ChallengeRow → Type 0 where
  here : Reach rows rows
  next :
      {rows' rows'' : List ChallengeRow} → Reach rows rows' → Step rows' rows'' → Reach rows rows''

pub mark-has_id :
    (now id challenge_id : String) (rows : List ChallengeRow)
    → any_where (has_id challenge_id) (mark_used now id rows) ≡ any_where (has_id challenge_id) rows
unfolding mark_used update_where any_where set_used
mark-has_id now id challenge_id [] = refl
mark-has_id now id challenge_id (r ∷ rows) = elim (Bool-cases (has_id id r)) [
  | inl e ↦ rw (e, mark-has_id now id challenge_id rows)
  | inr e ↦ rw (e, mark-has_id now id challenge_id rows)
]

-- Marking marks every row of the id.
pub mark-All :
    (now challenge_id : String) (rows : List ChallengeRow)
    → All
        (λ row. has_id challenge_id row ≡ true → row.challenge.status ≡ "used")
        (mark_used now challenge_id rows)
unfolding mark_used update_where set_used
mark-All now challenge_id [] = tt
mark-All now challenge_id (r ∷ rows) = elim (Bool-cases (has_id challenge_id r)) [
  | inl e ↦ rw e (λ _. refl, mark-All now challenge_id rows)
  | inr e ↦ rw e (λ h. absurd (cc (h, e)), mark-All now challenge_id rows)
]

pub mark-keeps :
    (now id challenge_id : String) (rows : List ChallengeRow)
    → All (λ row. has_id challenge_id row ≡ true → row.challenge.status ≡ "used") rows
    → All
        (λ row. has_id challenge_id row ≡ true → row.challenge.status ≡ "used")
        (mark_used now id rows)
unfolding mark_used update_where set_used
mark-keeps now id challenge_id [] h = tt
mark-keeps now id challenge_id (r ∷ rows) h = elim (Bool-cases (has_id id r)) [
  | inl e ↦ rw e (λ _. refl, mark-keeps now id challenge_id rows h.1)
  | inr e ↦ rw e (h.0, mark-keeps now id challenge_id rows h.1)
]

pub first_where-any :
    (p q : ChallengeRow → Bool) (row : ChallengeRow) (rows : List ChallengeRow)
    → ((r : ChallengeRow) → p r ≡ true → q r ≡ true)
    → first_where p rows ≡ some row
    → any_where q rows ≡ true
unfolding first_where any_where
first_where-any p q row [] f h = absurd (ground arith)
first_where-any p q row (r ∷ rows) f h = elim (Bool-cases (p r)) [
  | inl e ↦ rw (f r e)
  | inr e ↦ ground (arith, first_where-any p q row rows f (rw (e, first_where) at h))
]

first_where-status :
    (challenge_id : String) (tenant_id : Option String) (row : ChallengeRow)
    (rows : List ChallengeRow)
    → All (λ r. has_id challenge_id r ≡ true → r.challenge.status ≡ "used") rows
    → first_where (λ r. has_id challenge_id r && matches tenant_id r.tenant_id) rows ≡ some row
    → row.challenge.status ≡ "used"
unfolding first_where
first_where-status challenge_id t row [] h e = absurd (ground arith)
first_where-status challenge_id t row (r ∷ rows) h e =
    elim (Bool-cases (has_id challenge_id r && matches t r.tenant_id)) [
      | inl hit ↦
          let same : r ≡ row = ground arith in
          ap (λ (x : ChallengeRow). x.challenge.status) (sym same) ∙ h.0 (ground arith)
      | inr miss ↦ first_where-status challenge_id t row rows h.1 (rw (miss, first_where) at e)
    ]

pub get-used :
    (challenge_id : String) (tenant_id : Option String) (rows : List ChallengeRow) (c : Challenge)
    → IsSpent challenge_id rows
    → get_challenge challenge_id tenant_id rows ≡ some c
    → c.status ≡ "used"
unfolding get_challenge
get-used challenge_id t rows c h e =
    elim (Option-cases (first_where (λ r. has_id challenge_id r && matches t r.tenant_id) rows)) [
      | inl absent ↦ absurd (cc (e, absent))
      | inr (row, found) ↦
          let same : row.challenge ≡ c = ground arith in
          ap (λ (x : Challenge). x.status) (sym same)
          ∙ first_where-status challenge_id t row rows h.all found
    ]
