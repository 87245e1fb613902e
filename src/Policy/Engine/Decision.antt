-- ===== src/Policy/Engine/Decision.antt =====
-- The decision against an independent description of a grant that permits a request.
use grantlayer.Prelude.{
  ℕ, ◌≡◌, refl, ◌↔◌, ◌⊎◌, inl, inr, true, false, Option, none, some, ◌≤◌, ◌<◌, arith, eq_iff,
  Option-cases,
}
use grantlayer.Result.{ok}
use grantlayer.Platform.{Platform, DateTime, aware, naive}
use grantlayer.Models.{Grant, AccessRequest, PolicyResult}
use grantlayer.Policy.Constraints.Limits.{IsPermitted, check_constraints-IsPermitted}
use grantlayer.Policy.Engine.{
  approval, is_exhausted, covers, granted, denied, limited, assess_state, assess_until, assess_from,
  assess_dates, assess, parse_iso,
}

-- A use limit that is not reached.
abbrev pub HasUses : Grant → Type 0
HasUses grant =
    (grant.max_uses ≡ none) ⊎ ((m : ℕ) × (grant.max_uses ≡ some m) × (grant.use_count < m))

-- The window of the grant includes the instant.
abbrev pub IsOpenAt : Platform → ℕ → Grant → Type 0
IsOpenAt py now grant =
    (from : ℕ) × (until : ℕ) × (parse_iso py grant.valid_from ≡ some (aware from))
    × (parse_iso py grant.valid_until ≡ some (aware until))
    × (from ≤ now)
    × (now ≤ until)

-- What the request may rely on: subject, role, action and resource agree, the window is open, and
-- the grant is neither revoked nor used up, and its limits are met.
pub record Permits (py : Platform) (request : AccessRequest) (now : ℕ) (grant : Grant)
    : Type 0 where
  pub subject : grant.subject_id ≡ request.subject_id
  pub role : grant.role ≡ request.role
  pub action : (grant.action ≡ request.action) ⊎ (grant.action ≡ "*")
  pub resource : (grant.resource ≡ request.resource) ⊎ (grant.resource ≡ "*")
  pub window : IsOpenAt py now grant
  pub active : grant.revoked ≡ false
  pub uses : HasUses grant
  pub limits :
      IsPermitted py grant.constraints request.attempted_fee_lovelace
        request.wallet_balance_lovelace

module _ (py : Platform) (request : AccessRequest) (now : ℕ) where
  -- The assessment approves, and names the grant.
  abbrev pub Approves : Grant → Type 0
  Approves grant =
      (r : PolicyResult) × (assess py request now grant ≡ ok (approval r))
      × (r.approved ≡ true)
      × (r.matched_grant_id ≡ some grant.id)

  covers_iff :
      (grant : Grant)
      → (covers request grant ≡ true) ↔ (
          (grant.role ≡ request.role)
          × ((grant.action ≡ request.action) ⊎ (grant.action ≡ "*"))
          × ((grant.resource ≡ request.resource) ⊎ (grant.resource ≡ "*")))
  unfolding covers
  covers_iff grant = ground (
    arith,
    eq_iff grant.role request.role,
    eq_iff grant.action request.action,
    eq_iff grant.action "*",
    eq_iff grant.resource request.resource,
    eq_iff grant.resource "*",
  )

  exhausted_iff : (grant : Grant) → (is_exhausted grant ≡ false) ↔ HasUses grant
  unfolding is_exhausted
  exhausted_iff grant = elim (Option-cases grant.max_uses) [
    | inl unlimited ↦ ground arith
    | inr (m, e) ↦ (λ h. inr (m, e, ground arith), λ h. ground arith)
  ]

  -- The grant's own state lets the request through.
  abbrev pub IsUsable : Grant → Type 0
  IsUsable grant =
      (grant.revoked ≡ false)
      × HasUses grant
      × IsPermitted py grant.constraints request.attempted_fee_lovelace
          request.wallet_balance_lovelace

  abbrev pub Names : Grant → PolicyResult → Type 0
  Names grant r = (r.approved ≡ true) × (r.matched_grant_id ≡ some grant.id)

  state_approval :
      (grant : Grant) (r : PolicyResult)
      → assess_state py request grant ≡ approval r
      → IsUsable grant × Names grant r
  unfolding assess_state granted denied limited
  state_approval grant r h =
      let permitted =
        check_constraints-IsPermitted py grant.constraints request.attempted_fee_lovelace
          request.wallet_balance_lovelace in
      let uses = exhausted_iff grant in
      ((ground arith, uses.0 (ground arith), permitted.0 (ground arith)), ground arith)

  state-IsUsable :
      (grant : Grant) → IsUsable grant → assess_state py request grant ≡ approval (granted grant)
  unfolding assess_state
  state-IsUsable grant u =
      let permitted =
        check_constraints-IsPermitted py grant.constraints request.attempted_fee_lovelace
          request.wallet_balance_lovelace in
      simp (u.0, (exhausted_iff grant).1 u.1) (rw (permitted.1 u.2, assess_state))

  dates_approval :
      (grant : Grant) (r : PolicyResult) (from until : Option DateTime)
      → assess_dates py request now grant from until ≡ ok (approval r)
      → ((f : ℕ) × (u : ℕ) × (from ≡ some (aware f))
          × (until ≡ some (aware u))
          × (f ≤ now)
          × (now ≤ u))
        × (assess_state py request grant ≡ approval r)
  unfolding assess_dates assess_from assess_until denied
  dates_approval grant r none until h = ground arith
  dates_approval grant r (some f) none h = ground arith
  dates_approval grant r (some (naive f)) (some u) h = ground arith
  dates_approval grant r (some (aware f)) (some (naive u)) h = ground arith
  dates_approval grant r (some (aware f)) (some (aware u)) h =
      ((f, u, refl, refl, ground arith, ground arith), ground arith)

  -- An approving assessment names a grant that permits the request.
  pub assess_approval :
      (grant : Grant) (r : PolicyResult)
      → grant.subject_id ≡ request.subject_id
      → assess py request now grant ≡ ok (approval r)
      → Permits py request now grant × Names grant r
  unfolding assess
  assess_approval grant r s h =
      let covered = (covers_iff grant).0 (ground arith) in
      let dated =
        dates_approval grant r (parse_iso py grant.valid_from) (parse_iso py grant.valid_until)
          (ground arith) in
      let usable = state_approval grant r dated.1 in
      (
        record {
          subject = s;
          role = covered.0;
          action = covered.1;
          resource = covered.2;
          window = dated.0;
          active = usable.0.0;
          uses = usable.0.1;
          limits = usable.0.2;
        },
        usable.1,
      )

  dates-IsOpenAt :
      (grant : Grant) (p : Permits py request now grant)
      → assess_dates py request now grant
          (parse_iso py grant.valid_from)
          (parse_iso py grant.valid_until)
        ≡ ok (approval (granted grant))
  unfolding assess_dates assess_from assess_until
  dates-IsOpenAt grant p =
      let (f, u, ef, eu, hf, hu) = p.window in
      ground (arith, state-IsUsable grant (p.active, p.uses, p.limits))

  -- A grant that permits the request is assessed as approving.
  pub assess-Permits : (grant : Grant) → Permits py request now grant → Approves grant
  unfolding assess granted
  assess-Permits grant p = (
    granted grant,
    ground (arith, (covers_iff grant).1 (p.role, p.action, p.resource), dates-IsOpenAt grant p),
    refl,
    refl,
  )

  pub assess_approves :
      (grant : Grant) (r : PolicyResult)
      → assess py request now grant ≡ ok (approval r)
      → r.approved ≡ true
  unfolding assess
  assess_approves grant r h =
      let dated =
        dates_approval grant r (parse_iso py grant.valid_from) (parse_iso py grant.valid_until)
          (ground arith) in
      (state_approval grant r dated.1).1.0
