-- ===== src/Policy/Engine/Access.antt =====
-- The decision on a whole list of grants, in any state and at any time.
use grantlayer.Prelude.{
  ◌≡◌, refl, true, false, none, List, [], ◌∷◌, arith, eq_iff, select, Any, All, Any-select,
  select-Any, All-select,
}
use grantlayer.Result.{ok}
use grantlayer.Platform.{Platform, DateTime}
use grantlayer.Models.{Grant, AccessRequest, PolicyResult}
use grantlayer.Policy.Engine.{instant, is_candidate, evaluate_candidates, evaluate_access, no_grant}
use grantlayer.Policy.Engine.Decision.{Permits}
use grantlayer.Policy.Engine.Denials.{
  Chosen, scan_approved, scan-Permits, denials, IsFirst, scan_denied, HasZones, scan_total,
}

module _ (py : Platform) (request : AccessRequest) (grants : List Grant) (now : DateTime) where
  abbrev pub candidates : List Grant
  candidates = select (is_candidate request) grants

  subjects : All (λ g. g.subject_id ≡ request.subject_id) candidates
  subjects =
      All-select (λ g. g.subject_id ≡ request.subject_id) (is_candidate request)
        (λ g h. (eq_iff g.subject_id request.subject_id).0 h) grants

  candidates_approved :
      (cs : List Grant) (r : PolicyResult)
      → All (λ g. g.subject_id ≡ request.subject_id) cs
      → evaluate_candidates py request (instant now) cs ≡ ok r
      → r.approved ≡ true
      → Any (Chosen py request (instant now) r) cs
  unfolding evaluate_candidates no_grant
  candidates_approved [] r s h a = ground arith
  candidates_approved (g ∷ rest) r s h a =
      scan_approved py request (instant now) none (g ∷ rest) r tt s h a

  candidates_denied :
      (cs : List Grant) (r : PolicyResult)
      → evaluate_candidates py request (instant now) cs ≡ ok r
      → r.approved ≡ false
      → IsFirst py request (instant now) (denials py request (instant now) cs) r
  unfolding evaluate_candidates no_grant denials
  candidates_denied [] r h a = ground arith
  candidates_denied (g ∷ rest) r h a = scan_denied py request (instant now) (g ∷ rest) r h a

  candidates_permitted :
      (cs : List Grant) (r : PolicyResult)
      → Any (Permits py request (instant now)) cs
      → evaluate_candidates py request (instant now) cs ≡ ok r
      → r.approved ≡ true
  unfolding evaluate_candidates
  candidates_permitted [] r k h = elim k [ ]
  candidates_permitted (g ∷ rest) r k h =
      scan-Permits py request (instant now) none (g ∷ rest) r k h

  -- An approval names a grant of the list that permits the request: same subject and role, action
  -- and resource equal or `*`, window open, not revoked, uses left, limits met.
  pub approved-Permits :
      (r : PolicyResult)
      → evaluate_access py request grants now ≡ ok r
      → r.approved ≡ true
      → Any (Chosen py request (instant now) r) grants
  unfolding evaluate_access
  approved-Permits r h a =
      Any-select (Chosen py request (instant now) r) (is_candidate request) grants
        (candidates_approved candidates r subjects h a)

  -- Where some grant of the list permits the request, an evaluation that returns approves, whatever
  -- the other grants are and wherever they stand.
  pub Permits-approved :
      (r : PolicyResult)
      → evaluate_access py request grants now ≡ ok r
      → Any (Permits py request (instant now)) grants
      → r.approved ≡ true
  unfolding evaluate_access
  Permits-approved r h k =
      candidates_permitted candidates r
        (select-Any (Permits py request (instant now)) (is_candidate request)
          (λ g p. (eq_iff g.subject_id request.subject_id).1 p.subject) grants k)
        h

  -- A denial is the reason of the first grant of the subject, in the order of the list, that gives
  -- one, and names no grant where none does.
  pub denied-IsFirst :
      (r : PolicyResult)
      → evaluate_access py request grants now ≡ ok r
      → r.approved ≡ false
      → IsFirst py request (instant now) (denials py request (instant now) candidates) r
  unfolding evaluate_access
  denied-IsFirst r h a = candidates_denied candidates r h a

  candidates_total :
      (cs : List Grant)
      → All (HasZones py) cs
      → (r : PolicyResult) × (evaluate_candidates py request (instant now) cs ≡ ok r)
  unfolding evaluate_candidates
  candidates_total [] h = (no_grant request, refl)
  candidates_total (g ∷ rest) h = scan_total py request (instant now) none (g ∷ rest) h

  -- The evaluation returns, and does not raise, where no date of the subject's grants parses to a
  -- date without a time zone.
  pub evaluate_access_total :
      All (HasZones py) candidates
      → (r : PolicyResult) × (evaluate_access py request grants now ≡ ok r)
  unfolding evaluate_access
  evaluate_access_total h = candidates_total candidates h
