-- ===== src/Challenges.antt =====
-- One-time challenges (backend/src/auth/challenges.py). Timestamps are texts, as in the source; what
-- the clock gives is an argument.
pub mod SingleUse
pub mod Reuse
use grantlayer.Prelude.{
  ℕ, String, Bool, true, not, ◌&&◌, ◌||◌, Option, none, some, List, [], ◌∷◌, ◌++◌, map, length,
  ◌==◌, before, select, sort_by, page, update_where, any_where, first_where, if◌then◌else◌,
}
use grantlayer.Result.{Result, ok, err, value_error, database_error, ◌>>=◌, ◌>>◌}
use grantlayer.Models.{Challenge}
use grantlayer.Validation.{validate_string_length, max_short_id_length, max_name_length}

pub record ChallengeRow : Type 0 where
  pub challenge : Challenge
  pub tenant_id : String
  pub workspace_id : String

abbrev pub matches : Option String → String → Bool
matches none value = true
matches (some wanted) value = value == wanted

abbrev pub has_id : String → ChallengeRow → Bool
has_id challenge_id row = row.challenge.id == challenge_id

unfoldable pub or_default : Option String → String
or_default none = "default"
or_default (some w) = w

-- The INSERT, with its primary key.
unfoldable pub insert : ChallengeRow → List ChallengeRow → Result (List ChallengeRow)
insert row rows =
    if any_where (has_id row.challenge.id) rows then err database_error else ok (rows ++ row ∷ [])

unfoldable pub require_tenant : Option String → Result String
require_tenant none = err (value_error "tenant_id is required")
require_tenant (some t) = ok t

-- `id` is the fresh uuid, `now` the clock's text and `expires` that of five minutes later.
unfoldable pub create_challenge :
    (id now expires subject_id action resource : String) (tenant_id workspace_id : Option String)
    → List ChallengeRow
    → Result (List ChallengeRow)
unfolding or_default insert require_tenant validate_string_length
create_challenge id now expires subject_id action resource tenant_id workspace_id rows = do
  validate_string_length subject_id "subject_id" max_short_id_length
  validate_string_length action "action" max_name_length
  validate_string_length resource "resource" max_name_length
  tenant ← require_tenant tenant_id
  insert
      (record {
        challenge = record {
          subject_id = subject_id;
          action = action;
          resource = resource;
          id = id;
          created_at = now;
          expires_at = expires;
          used_at = none;
          status = "active";
        };
        tenant_id = tenant;
        workspace_id = or_default workspace_id;
      })
      rows

unfoldable pub get_challenge : String → Option String → List ChallengeRow → Option Challenge
get_challenge challenge_id tenant_id rows =
    elim (first_where (λ row. has_id challenge_id row && matches tenant_id row.tenant_id) rows) [
      | none ↦ none
      | some row ↦ some row.challenge
    ]

unfoldable pub list_challenges :
    Option String → Option String → Option ℕ → ℕ → List ChallengeRow → List Challenge
list_challenges tenant_id workspace_id limit offset rows =
    map (λ row. row.challenge)
      (page limit offset (
        sort_by (λ a b. before b.challenge.created_at a.challenge.created_at)
          (select (λ row. matches tenant_id row.tenant_id && matches workspace_id row.workspace_id)
            rows)))

unfoldable pub count_challenges : Option String → Option String → List ChallengeRow → ℕ
count_challenges tenant_id workspace_id rows =
    length (
      select (λ row. matches tenant_id row.tenant_id && matches workspace_id row.workspace_id) rows)

unfoldable pub set_used : String → ChallengeRow → ChallengeRow
set_used used_at row = record row {
  challenge = record row.challenge { used_at = some used_at; status = "used" };
}

unfoldable pub mark_used : String → String → List ChallengeRow → List ChallengeRow
mark_used now challenge_id rows = update_where (has_id challenge_id) (set_used now) rows

pub data ChallengeResult : Type 0 where
  valid not_found expired already_used mismatch : ChallengeResult

-- The tests on the challenge that was read.
unfoldable pub check_challenge :
    String → String → String → String → Option Challenge → ChallengeResult
check_challenge now subject_id action resource none = not_found
check_challenge now subject_id action resource (some challenge) =
    if before challenge.expires_at now
    then expired
    else if challenge.status == "used"
    then already_used
    else if not (challenge.subject_id == subject_id)
        || (not (challenge.action == action) || not (challenge.resource == resource))
    then mismatch
    else valid

-- The first half of `validate_challenge`: the row is read and tested.
unfoldable pub read_and_check :
    (now challenge_id subject_id action resource : String) (tenant_id : Option String)
    → List ChallengeRow
    → ChallengeResult
read_and_check now challenge_id subject_id action resource tenant_id rows =
    check_challenge now subject_id action resource (get_challenge challenge_id tenant_id rows)

-- The second half: only a valid challenge is marked.
unfoldable pub finish : String → String → ChallengeResult → List ChallengeRow → List ChallengeRow
finish now challenge_id valid rows = mark_used now challenge_id rows
finish now challenge_id result rows = rows

unfoldable pub returned_id : String → ChallengeResult → Option String
returned_id challenge_id not_found = none
returned_id challenge_id result = some challenge_id

unfoldable pub validate_challenge :
    (now challenge_id subject_id action resource : String) (tenant_id : Option String)
    → List ChallengeRow
    → (ChallengeResult × Option String) × List ChallengeRow
validate_challenge now challenge_id subject_id action resource tenant_id rows =
    let result = read_and_check now challenge_id subject_id action resource tenant_id rows in
    ((result, returned_id challenge_id result), finish now challenge_id result rows)
