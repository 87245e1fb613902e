-- ===== src/Signing.antt =====
-- Grant signatures (backend/src/core/crypto_signing.py): the signed text of a grant, its hash, the
-- signing and the check.
pub mod Trust
pub mod Payload
use grantlayer.Prelude.{
  String, Bool, true, ◌||◌, not, Option, none, some, List, [], ◌∷◌, opt_eq, is_empty, join, concat,
  if◌then◌else◌,
}
use grantlayer.Result.{Result, ok, err, key_not_registered}
use grantlayer.Platform.{Platform}
use grantlayer.Models.{Grant}

unfoldable pub constraints_line : Option String → List String
constraints_line none = []
constraints_line (some c) = concat ("constraints=" ∷ c ∷ []) ∷ []

unfoldable pub grant_lines : Grant → List String
grant_lines grant =
    concat ("action=" ∷ grant.action ∷ [])
    ∷ concat ("createdBy=" ∷ grant.created_by ∷ [])
    ∷ concat ("id=" ∷ grant.id ∷ [])
    ∷ concat ("reason=" ∷ grant.reason ∷ [])
    ∷ concat ("resource=" ∷ grant.resource ∷ [])
    ∷ concat ("role=" ∷ grant.role ∷ [])
    ∷ concat ("subjectId=" ∷ grant.subject_id ∷ [])
    ∷ concat ("validFrom=" ∷ grant.valid_from ∷ [])
    ∷ concat ("validUntil=" ∷ grant.valid_until ∷ [])
    ∷ constraints_line grant.constraints

unfoldable pub canonical_grant_payload : Grant → String
unfolding grant_lines constraints_line
canonical_grant_payload grant = join "\n" (grant_lines grant)

-- What the check returns, by the names of the source.
pub data SignatureResult : Type 0 where
  valid missing invalid hash_mismatch unknown_key : SignatureResult

-- `not value`, for a text that may be None.
unfoldable pub is_unset : Option String → Bool
is_unset none = true
is_unset (some s) = is_empty s

unfoldable pub or_empty : Option String → String
or_empty none = ""
or_empty (some s) = s

module _ (py : Platform) where
  unfoldable pub payload_hash : Grant → String
  payload_hash grant = py.sha256 (canonical_grant_payload grant)

  -- `sign_grant` and the three fields that every caller sets from its result.
  unfoldable pub sign_grant : Grant → Result Grant
  sign_grant grant = elim (py.keyring py.key_id) [
    | none ↦ err key_not_registered
    | some public_key ↦ ok (record grant {
      signature = some (py.sign (canonical_grant_payload grant));
      signing_key_id = some py.key_id;
      payload_hash = some (payload_hash grant);
    })
  ]

  unfoldable pub check_key : Grant → Option String → SignatureResult
  check_key grant none = unknown_key
  check_key grant (some public_key) =
      if py.verify public_key (or_empty grant.signature) (canonical_grant_payload grant)
      then valid
      else invalid

  unfoldable pub verify_grant_signature : Grant → SignatureResult
  unfolding check_key is_unset or_empty
  verify_grant_signature grant =
      if is_unset grant.signature || (is_unset grant.signing_key_id || is_unset grant.payload_hash)
      then missing
      else if not (opt_eq grant.payload_hash (some (payload_hash grant)))
      then hash_mismatch
      else check_key grant (py.keyring (or_empty grant.signing_key_id))
