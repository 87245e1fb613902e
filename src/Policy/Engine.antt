-- ===== src/Policy/Engine.antt =====
-- The access decision (backend/src/policy/policy_engine.py): which grant, if any, lets a request
-- through at a time.
pub mod Decision
pub mod Denials
pub mod Access
use Prim.Native.Char.{Char, code}
use Prim.Native.String
use grantlayer.Prelude.{
  ℕ, String, Bool, true, false, ◌&&◌, ◌||◌, Option, none, some, List, [], ◌∷◌, ◌==◌, ltb, leb,
  select, concat, if◌then◌else◌,
}
use grantlayer.Result.{Result, ok, err, type_error}
use grantlayer.Platform.{Platform, DateTime, aware, naive}
use grantlayer.Models.{Grant, AccessRequest, PolicyResult}
use grantlayer.Policy.Constraints.{ConstraintDenial, check_constraints}

-- `ts[:-1] + "+00:00"` where the text ends in Z.
unfoldable pub utc_offset : String → String
utc_offset String.[] = ""
utc_offset (String.◌∷◌ c String.[]) =
    if String.◌∷◌ c String.[] == "Z" then "+00:00" else String.◌∷◌ c String.[]
utc_offset (String.◌∷◌ c (String.◌∷◌ d s)) = String.◌∷◌ c (utc_offset (String.◌∷◌ d s))

-- `now.replace(tzinfo=utc)` where it has no time zone: the instant.
unfoldable pub instant : DateTime → ℕ
instant (aware t) = t
instant (naive t) = t

-- What one candidate says: it is passed over, it gives a reason to deny, or it approves.
pub data Assessment : Type 0 where
  skip : Assessment
  denial : PolicyResult → Assessment
  approval : PolicyResult → Assessment

unfoldable pub denied : Grant → String → String → Assessment
denied grant reason reason_code = denial (record {
  approved = false;
  reason = reason;
  matched_grant_id = some grant.id;
  reason_code = some reason_code;
  constraint_violation = none;
})

unfoldable pub granted : Grant → PolicyResult
granted grant = record {
  approved = true;
  reason = "Access granted";
  matched_grant_id = some grant.id;
  reason_code = some "access_granted";
  constraint_violation = none;
}

unfoldable pub is_exhausted : Grant → Bool
is_exhausted grant = elim grant.max_uses [ none ↦ false | some m ↦ leb m grant.use_count ]

-- Role, action and resource of the grant cover the request's.
unfoldable pub covers : AccessRequest → Grant → Bool
covers request grant =
    grant.role == request.role
    && ((grant.action == request.action || grant.action == "*")
        && (grant.resource == request.resource || grant.resource == "*"))

unfoldable pub limited : Grant → ConstraintDenial → Assessment
limited grant d = denial (record {
  approved = false;
  reason = d.reason;
  matched_grant_id = some grant.id;
  reason_code = some d.reason_code;
  constraint_violation = d.violation;
})

unfoldable pub no_match : AccessRequest → PolicyResult
no_match request = record {
  approved = false;
  reason = concat (
      "No matching grant for role='" ∷ request.role ∷ "', action='" ∷ request.action
      ∷ "', resource='" ∷ request.resource ∷ "'" ∷ []);
  matched_grant_id = none;
  reason_code = some "no_matching_grant";
  constraint_violation = none;
}

unfoldable pub no_grant : AccessRequest → PolicyResult
no_grant request = record {
  approved = false;
  reason = concat ("No grant found for subject '" ∷ request.subject_id ∷ "'" ∷ []);
  matched_grant_id = none;
  reason_code = some "no_matching_grant";
  constraint_violation = none;
}

abbrev pub is_candidate : AccessRequest → Grant → Bool
is_candidate request grant = grant.subject_id == request.subject_id

-- `if best_denial is None: best_denial = …`
unfoldable pub keep_first : Option PolicyResult → PolicyResult → Option PolicyResult
keep_first none d = some d
keep_first (some b) d = some b

module _ (py : Platform) where
  unfoldable pub parse_iso : String → Option DateTime
  parse_iso ts = py.fromisoformat (utc_offset ts)

  -- Revocation, use limit and constraints, for a grant whose dates include `now`.
  unfoldable pub assess_state : AccessRequest → Grant → Assessment
  assess_state request grant =
      if grant.revoked
      then denied grant (concat ("Grant '" ∷ grant.id ∷ "' has been revoked" ∷ [])) "grant_revoked"
      else if is_exhausted grant
      then denied grant "grant_usage_exhausted" "grant_usage_exhausted"
      else elim (check_constraints py grant.constraints request.attempted_fee_lovelace
          request.wallet_balance_lovelace) [
            | none ↦ approval (granted grant)
            | some d ↦ limited grant d
          ]

  -- A date without a time zone cannot be compared with `now`.
  unfoldable pub assess_until : AccessRequest → ℕ → Grant → DateTime → Result Assessment
  assess_until request now grant (naive t) = err type_error
  assess_until request now grant (aware valid_until) = ok (
      if ltb valid_until now
      then denied grant
          (concat ("Grant '" ∷ grant.id ∷ "' has expired (expired " ∷ grant.valid_until ∷ ")" ∷ []))
          "grant_expired"
      else assess_state request grant)

  unfoldable pub assess_from : AccessRequest → ℕ → Grant → DateTime → DateTime → Result Assessment
  assess_from request now grant (naive t) valid_until = err type_error
  assess_from request now grant (aware valid_from) valid_until =
      if ltb now valid_from
      then ok (
          denied grant
            (concat
              ("Grant '" ∷ grant.id ∷ "' is not yet valid (starts " ∷ grant.valid_from ∷ ")" ∷ []))
            "grant_not_yet_valid")
      else assess_until request now grant valid_until

  -- A date that does not parse passes the grant over.
  unfoldable pub assess_dates :
      AccessRequest → ℕ → Grant → Option DateTime → Option DateTime → Result Assessment
  assess_dates request now grant none until = ok skip
  assess_dates request now grant (some valid_from) none = ok skip
  assess_dates request now grant (some valid_from) (some valid_until) =
      assess_from request now grant valid_from valid_until

  -- One round of the loop over the candidates.
  unfoldable pub assess : AccessRequest → ℕ → Grant → Result Assessment
  assess request now grant =
      if covers request grant
      then assess_dates request now grant (parse_iso grant.valid_from) (parse_iso grant.valid_until)
      else ok skip

  -- The loop, with `best_denial`.
  unfoldable pub scan : AccessRequest → ℕ → Option PolicyResult → List Grant → Result PolicyResult
  unfolding keep_first
  scan request now none [] = ok (no_match request)
  scan request now (some best) [] = ok best
  scan request now best (grant ∷ rest) = elim (assess request now grant) [
    | err e ↦ err e
    | ok skip ↦ scan request now best rest
    | ok (denial d) ↦ scan request now (keep_first best d) rest
    | ok (approval r) ↦ ok r
  ]

  unfoldable pub evaluate_candidates : AccessRequest → ℕ → List Grant → Result PolicyResult
  evaluate_candidates request now [] = ok (no_grant request)
  evaluate_candidates request now (grant ∷ rest) = scan request now none (grant ∷ rest)

  unfoldable pub evaluate_access : AccessRequest → List Grant → DateTime → Result PolicyResult
  unfolding scan assess assess_dates assess_from assess_until assess_state covers is_exhausted
      denied granted limited parse_iso utc_offset evaluate_candidates no_grant no_match keep_first
      instant
  evaluate_access request grants now =
      evaluate_candidates request (instant now) (select (is_candidate request) grants)
