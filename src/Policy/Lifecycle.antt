-- ===== src/Policy/Lifecycle.antt =====
-- The life of an approval request (backend/src/policy/approval_lifecycle.py), for requests with the
-- fields, and the types of them, that build_approval_request_lifecycle writes.
pub mod Operations
pub mod Counting
pub mod Approved
pub mod FourEyes
use grantlayer.Prelude.{
  ℕ, ◌+◌, ◌-◌, String, Bool, true, false, not, ◌&&◌, ◌||◌, Option, none, some, List, [], ◌∷◌, ◌++◌,
  map, ◌==◌, concat, is_empty, is_some, any_where, mem, before, sort_by, length, ltb, leb,
  if◌then◌else◌,
}
use Prim.Native.Nat.{max}
use grantlayer.Prelude.Int.{ℤ, pos, negsuc, str}
use grantlayer.Platform.{Json, boolean, text}
use grantlayer.Policy.Approval.Inputs.{Python}
use grantlayer.Policy.Approval.{Requirement}

-- An approver: a dict, by its JSON text and its "role", where that is a text; or anything else, by
-- its `str`.
pub data Approver : Type 0 where
  dict_approver : String → Option String → Approver
  other_approver : String → Approver

-- A context: a dict, or anything else.
pub data Context : Type 0 where
  dict_context : List (String × Json) → Context
  other_context : Context

-- An argument that may be None, or not the dict that is wanted.
pub data Input (A : Type 0) : Type 0 where
  missing : Input A
  malformed : Input A
  given : A → Input A

pub record ApprovalRequest : Type 0 where
  pub request_id : Option String
  pub action : Json
  pub actor_id : Option String
  pub subject_id : Option String
  pub requested_by : Option String
  pub status : String
  pub required_approvals : ℕ
  pub required_roles : List String
  pub received_approvals : ℕ
  pub approved_by_roles : List String
  pub approval_history : List String
  pub approvers : List Approver
  pub decision : Option String
  pub reason : Option String
  pub blockers : List String
  pub warnings : List String
  pub created_at : Option String
  pub expires_at : Option String
  pub context : Option (List (String × Json))

abbrev pub transitions : List String
transitions = "create" ∷ "approve" ∷ "reject" ∷ "expire" ∷ "cancel" ∷ "block" ∷ "reopen" ∷ []

-- `_VALID_TRANSITIONS.get(status, set())`
unfoldable pub valid_transitions : String → List String
valid_transitions status =
    if status == "not_required"
    then "create" ∷ []
    else if status == "pending"
    then "create" ∷ "approve" ∷ "reject" ∷ "expire" ∷ "cancel" ∷ "block" ∷ []
    else if status == "rejected"
        || (status == "expired" || (status == "cancelled" || status == "blocked"))
    then "reopen" ∷ []
    else []

abbrev pub key_of : Approver → String
key_of (dict_approver key role) = key
key_of (other_approver s) = s

abbrev pub is_dict : Approver → Bool
is_dict (dict_approver key role) = true
is_dict (other_approver s) = false

-- The approvers of the kind, each JSON text or `str` at its first occurrence.
unfoldable pub unique : Bool → List Approver → List Approver → List Approver
unique kind seen [] = seen
unique kind seen (a ∷ rest) =
    let skipped = unique kind seen rest in
    let added = unique kind (seen ++ a ∷ []) rest in
    if (if is_dict a then kind else not kind) && not (any_where (λ b. key_of a == key_of b) seen)
    then added
    else skipped

-- `_normalise_approvers`, of a list: dicts first, then texts, each without repetition and sorted.
unfoldable pub normalise_approvers : List Approver → List Approver
unfolding unique
normalise_approvers approvers =
    let by_key = λ (a b : Approver). before (key_of a) (key_of b) in
    sort_by by_key (unique true [] approvers) ++ sort_by by_key (unique false [] approvers)

-- `_count_valid_approvals`: the roles that are required and that a dict among the approvers has,
-- each once. The count is their number.
unfoldable pub count_role : List String → List String → Approver → List String
count_role required found (other_approver s) = found
count_role required found (dict_approver key none) = found
count_role required found (dict_approver key (some role)) =
    if not (is_empty role) && (mem role required && not (mem role found))
    then found ++ role ∷ []
    else found

unfoldable pub approved_roles_from : List String → List String → List Approver → List String
unfolding count_role
approved_roles_from required found [] = found
approved_roles_from required found (a ∷ rest) =
    approved_roles_from required (count_role required found a) rest

-- With no required role, the loop finds none.
unfoldable pub approved_roles : List Approver → List String → List String
unfolding approved_roles_from
approved_roles approvers [] = []
approved_roles approvers (r ∷ rs) = approved_roles_from (r ∷ rs) [] approvers

abbrev pub secret_key_fragments : List String
secret_key_fragments =
    "token" ∷ "secret" ∷ "password" ∷ "api_key" ∷ "apikey" ∷ "auth" ∷ "authorization" ∷ "credential"
    ∷ "credentials" ∷ "private_key" ∷ "privatekey" ∷ "netrc" ∷ "cookie" ∷ "jwt" ∷ "ssho" ∷ "bearer"
    ∷ "access_token" ∷ "refresh_token" ∷ "id_token" ∷ []

-- `reason or default`
unfoldable pub or_text : Option String → String → String
or_text none default = default
or_text (some s) default = if is_empty s then default else s

module _ (py : Python) where
  unfoldable pub is_secret : String → Bool
  is_secret key = any_where (λ sk. py.contains sk (py.lower key)) secret_key_fragments

  unfoldable pub sanitize : List (String × Json) → List (String × Json)
  unfolding is_secret
  sanitize [] = []
  sanitize (e ∷ es) = (e.0, if is_secret e.0 then text "[REDACTED]" else e.1) ∷ sanitize es

  -- The "context" of a response: none where it is left out or empty.
  unfoldable pub safe_context : Bool → Option Context → Option (List (String × Json))
  unfolding sanitize
  safe_context false context = none
  safe_context true none = none
  safe_context true (some other_context) = none
  safe_context true (some (dict_context [])) = none
  safe_context true (some (dict_context (e ∷ es))) = some (sanitize (e ∷ es))

  -- `_build_response` on fields: the approvers are normalised and the context sanitised.
  unfoldable pub build_response : Bool → Option Context → ApprovalRequest → ApprovalRequest
  unfolding safe_context normalise_approvers
  build_response include_details context fields = record fields {
    approvers = normalise_approvers fields.approvers;
    context = safe_context include_details context;
  }
