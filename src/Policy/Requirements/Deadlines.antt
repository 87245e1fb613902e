-- ===== src/Policy/Requirements/Deadlines.antt =====
-- The deadlines of a policy pack (backend/src/policy/policy_requirements.py).
use grantlayer.Prelude.{
  ℕ, String, Bool, true, false, not, ◌||◌, Option, none, some, List, [], ◌∷◌, ◌++◌, concat,
  is_empty, ltb, if◌then◌else◌,
}
use grantlayer.Result.{Result, ok, err, type_error, ◌>>=◌}
use grantlayer.Platform.{DateTime, aware, naive}
use grantlayer.Policy.Requirements.Rules.{
  Reader, PolicyPack, Deadline, DueAt, unset, stamp, not_text, Ruling, ruling, note, parse_iso,
}

-- The flags that the loop over the deadlines sets, and its messages.
pub record Dates : Type 0 where
  pub any_present : Bool
  pub any_expired_required : Bool
  pub any_expired : Bool
  pub blockers : List String
  pub warnings : List String

unfoldable pub no_dates : Dates
no_dates = record {
  any_present = false;
  any_expired_required = false;
  any_expired = false;
  blockers = [];
  warnings = [];
}

unfoldable pub add_dates : Dates → Dates → Dates
add_dates a b = record {
  any_present = a.any_present || b.any_present;
  any_expired_required = a.any_expired_required || b.any_expired_required;
  any_expired = a.any_expired || b.any_expired;
  blockers = a.blockers ++ b.blockers;
  warnings = a.warnings ++ b.warnings;
}

-- A deadline that is malformed, or passed, which alone counts as expired where it is optional.
unfoldable pub missed : Bool → Bool → String → Dates
unfolding note
missed required expired message = record {
  any_present = true;
  any_expired_required = required;
  any_expired = expired;
  blockers = note required message;
  warnings = note (not required) message;
}

unfoldable pub at_due : ℕ → Deadline → Option DateTime → Result Dates
unfolding missed no_dates
at_due now d none = ok (missed d.required false "deadline_malformed")
at_due now d (some (naive t)) = err type_error
at_due now d (some (aware t)) =
    if ltb t now
    then ok (missed d.required true (concat ("deadline_expired:" ∷ d.name ∷ [])))
    else ok (record no_dates { any_present = true })

unfoldable pub is_unset : DueAt → Bool
is_unset unset = true
is_unset (stamp s) = is_empty s
is_unset not_text = false

unfoldable pub deadline_status : Dates → String
deadline_status d =
    if not d.any_present
    then "none"
    else if d.any_expired_required
    then "expired"
    else if d.any_expired
    then "expired_optional"
    else "on_time"

module _ (r : Reader) where
  unfoldable pub deadline_item : ℕ → Option Deadline → Result Dates
  unfolding at_due is_unset no_dates parse_iso
  deadline_item now none = ok no_dates
  deadline_item now (some d) =
      if is_unset d.due_at then ok no_dates else at_due now d (parse_iso r d.due_at)

  unfoldable pub scan_deadlines : ℕ → List (Option Deadline) → Result Dates
  unfolding deadline_item add_dates no_dates
  scan_deadlines now [] = ok no_dates
  scan_deadlines now (i ∷ items) =
      let rest = scan_deadlines now items in
      deadline_item now i >>= (λ a. rest >>= (λ b. ok (add_dates a b)))

  unfoldable pub evaluate_deadlines : ℕ → PolicyPack → Result Ruling
  unfolding scan_deadlines deadline_status ruling
  evaluate_deadlines now pack = elim pack.deadlines [
    | none ↦ ok (ruling "missing" [] [])
    | some items ↦
        scan_deadlines now items >>= (λ d. ok (ruling (deadline_status d) d.blockers d.warnings))
  ]
