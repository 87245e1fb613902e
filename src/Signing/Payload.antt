-- ===== src/Signing/Payload.antt =====
-- What the signed text tells apart, and what it does not.
use Prim.Native.String.{◌++◌}
use text.Mathlib.TextLemmas.{append_cancel_left, append_cancel_right, append-nil, append_assoc}
use grantlayer.Prelude.{
  String, ◌≡◌, ◌≢◌, sym, ◌∙◌, none, some, List, [], ◌∷◌, arith, opt_eq, opt_eq→eq, Bool-cases, inl,
  inr, join, concat,
}
use grantlayer.Platform.{Platform}
use grantlayer.Models.{Grant}
use grantlayer.Signing.Trust.{verify_grant_signature-valid}
use grantlayer.Signing.{
  canonical_grant_payload, constraints_line, valid, hash_mismatch, payload_hash,
  verify_grant_signature,
}

-- The value of a field is found back from the text that begins with its line.
field-inj :
    (label a b next : String) (rest : List String)
    → join "\n" (concat (label ∷ a ∷ []) ∷ next ∷ rest)
      ≡ join "\n" (concat (label ∷ b ∷ []) ∷ next ∷ rest)
    → a ≡ b
unfolding join concat
field-inj label a b next rest h =
    let whole = append_cancel_right (label ++ (a ++ "")) (label ++ (b ++ "")) _ h in
    sym (append-nil a) ∙ append_cancel_left label _ _ whole ∙ append-nil b

-- Two grants that differ in the role alone have different signed texts.
pub role-inj :
    (grant : Grant) (role : String)
    → canonical_grant_payload (record grant { role = role }) ≡ canonical_grant_payload grant
    → role ≡ grant.role
unfolding canonical_grant_payload join
role-inj grant role h =
    let drop_line = λ (s a b : String) (e : s ++ ("\n" ++ a) ≡ s ++ ("\n" ++ b)).
      append_cancel_left "\n" a b (append_cancel_left s _ _ e) in
    let h1 = drop_line _ _ _ h in
    let h2 = drop_line _ _ _ h1 in
    let h3 = drop_line _ _ _ h2 in
    let h4 = drop_line _ _ _ h3 in
    let h5 = drop_line _ _ _ h4 in
    field-inj "role=" role grant.role (concat ("subjectId=" ∷ grant.subject_id ∷ []))
      (concat ("validFrom=" ∷ grant.valid_from ∷ [])
        ∷ concat ("validUntil=" ∷ grant.valid_until ∷ [])
        ∷ constraints_line grant.constraints)
      h5

module _ (py : Platform) where
  -- A grant that passed the check, with another role written over its own, fails it by the hash,
  -- where the hash has no collision between the two signed texts.
  pub tampered_role-mismatch :
      (grant : Grant) (role : String)
      → verify_grant_signature py grant ≡ valid
      → role ≢ grant.role
      → (payload_hash py (record grant { role = role }) ≡ payload_hash py grant
          → canonical_grant_payload (record grant { role = role }) ≡ canonical_grant_payload grant)
      → verify_grant_signature py (record grant { role = role }) ≡ hash_mismatch
  unfolding verify_grant_signature
  tampered_role-mismatch grant role h other no_collision =
      let accepted = verify_grant_signature-valid py grant h in
      elim (Bool-cases
        (opt_eq grant.payload_hash (some (payload_hash py (record grant { role = role }))))) [
          | inl same ↦
              let e =
                opt_eq→eq grant.payload_hash (some (payload_hash py (record grant { role = role })))
                  same in
              absurd (other (role-inj grant role (no_collision (cc (e, accepted.5)))))
          | inr differ ↦ ground arith
        ]

-- A grant without limits whose end date is followed by a line for them has the signed text of the
-- grant that carries those limits.
pub constraints_line-ambiguous :
    (grant : Grant) (limits : String)
    → canonical_grant_payload (record grant {
      valid_until = concat (grant.valid_until ∷ "\n" ∷ "constraints=" ∷ limits ∷ []);
      constraints = none;
    })
      ≡ canonical_grant_payload (record grant { constraints = some limits })
unfolding canonical_grant_payload join concat
constraints_line-ambiguous grant limits = simp (append_assoc, append-nil)
