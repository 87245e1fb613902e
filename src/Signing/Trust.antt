-- ===== src/Signing/Trust.antt =====
-- The check of signatures, and signing against it (backend/src/core/crypto_signing.py).
use grantlayer.Prelude.{
  String, ◌≡◌, true, false, some, arith, opt_eq→eq, opt_eq_refl, is_empty, Option-cases, inl, inr,
}
use grantlayer.Result.{ok}
use grantlayer.Platform.{Platform}
use grantlayer.Models.{Grant}
use grantlayer.Signing.{
  canonical_grant_payload, valid, payload_hash, sign_grant, verify_grant_signature,
}

-- The library signs so that its own check accepts, and gives no empty signature, hash or key id.
pub record IsSound (py : Platform) : Type 0 where
  pub accepts :
      (public_key message : String)
      → py.keyring py.key_id ≡ some public_key
      → py.verify public_key (py.sign message) message ≡ true
  pub signs : (message : String) → is_empty (py.sign message) ≡ false
  pub hashes : (message : String) → is_empty (py.sha256 message) ≡ false
  pub has_id : is_empty py.key_id ≡ false

module _ (py : Platform) where
  -- A grant that the check accepts carries the hash of its signed text, and its key id names a
  -- registered key under which its signature fits that text.
  pub verify_grant_signature-valid :
      (grant : Grant)
      → verify_grant_signature py grant ≡ valid
      → (signature : String) × (key_id : String) × (public_key : String) × (grant.signature
          ≡ some signature)
        × (grant.signing_key_id ≡ some key_id)
        × (grant.payload_hash ≡ some (payload_hash py grant))
        × (py.keyring key_id ≡ some public_key)
        × (py.verify public_key signature (canonical_grant_payload grant) ≡ true)
  unfolding verify_grant_signature
  verify_grant_signature-valid grant h = elim (Option-cases grant.signature) [
    | inl unsigned ↦ absurd (ground arith)
    | inr (signature, es) ↦ elim (Option-cases grant.signing_key_id) [
      | inl keyless ↦ absurd (ground arith)
      | inr (key_id, ek) ↦ elim (Option-cases (py.keyring key_id)) [
        | inl unknown ↦ absurd (ground arith)
        | inr (public_key, ep) ↦ (
          signature,
          key_id,
          public_key,
          es,
          ek,
          opt_eq→eq grant.payload_hash (some (payload_hash py grant)) (ground arith),
          ep,
          ground arith,
        )
      ]
    ]
  ]

  -- What `sign_grant` returns passes the check, where the library's check accepts what it signs and
  -- its signatures, hashes and key id are not empty.
  pub sign_grant-valid :
      IsSound py
      → (grant : Grant) (signed : Grant) → sign_grant py grant ≡ ok signed
      → verify_grant_signature py signed ≡ valid
  unfolding verify_grant_signature sign_grant payload_hash canonical_grant_payload
  sign_grant-valid sound grant signed h = elim (Option-cases (py.keyring py.key_id)) [
    | inl unregistered ↦ absurd (ground arith)
    | inr (public_key, e) ↦
        let message = canonical_grant_payload grant in
        ground (
          arith,
          sound.accepts public_key message e,
          sound.signs message,
          sound.hashes message,
          sound.has_id,
          opt_eq_refl (some (payload_hash py grant)),
        )
  ]
