-- ===== src/Examples/Logs.antt =====
-- Runs on the audit log and on signatures.
use grantlayer.Prelude.{
  String, ◌≡◌, refl, ◌≢◌, ◌↔◌, true, false, none, some, List, [], ◌∷◌, map, before, concat, sort_by,
  join, opt_eq, opt_eq_refl, ap, eq_iff,
}
use grantlayer.Result.{ok}
use grantlayer.Models.{AuditEvent, Grant}
use grantlayer.Audit.{
  compute_row_hash, sorted_payload, payload, append_event_sqlite, latest_from,
  verify_audit_hash_chain, chain_rows, fetch_all_audit_events_ordered,
}
use grantlayer.Audit.Verify.{IsLinked, verify_audit_hash_chain-IsLinked}
use grantlayer.Audit.Append.{IsHonest, tip}
use grantlayer.Audit.Runs.{append_all, append_all-valid}
use grantlayer.Audit.Tamper.{content, same_tip-same_content}
use grantlayer.Audit.Fork.{out_of_order-breaks}
use grantlayer.Audit.Unhashed.{edited, verify-edited}
use grantlayer.Signing.{
  canonical_grant_payload, payload_hash, sign_grant, verify_grant_signature, valid, hash_mismatch,
}
use grantlayer.Signing.Trust.{sign_grant-valid, verify_grant_signature-valid}
use grantlayer.Signing.Payload.{tampered_role-mismatch, constraints_line-ambiguous}
use grantlayer.Examples.Fixtures.{flat-IsSound, toy, flat, deploy, event, value_or}

abbrev later : AuditEvent
later = record event { id = "event-2"; timestamp = "2026-03-02T00:00:00Z" }

abbrev early : AuditEvent
early = record event { id = "event-3"; timestamp = "2026-02-01T00:00:00Z" }

abbrev log : List AuditEvent
log = append_all toy (event ∷ later ∷ []) []

verify_audit_hash_chain-IsLinked_example :
    ((verify_audit_hash_chain toy log).valid ≡ true)
    ↔ IsLinked toy none (chain_rows (fetch_all_audit_events_ordered log))
verify_audit_hash_chain-IsLinked_example = verify_audit_hash_chain-IsLinked toy log

append_all-valid_example : (verify_audit_hash_chain toy log).valid ≡ true
append_all-valid_example = append_all-valid toy (event ∷ later ∷ []) ((refl, tt), (tt, tt))

abbrev first_row : AuditEvent
first_row = record event { row_hash = some (compute_row_hash toy event none); seq = some 1 }

abbrev moved : AuditEvent
moved = record first_row { workspace_id = "elsewhere" }

first-IsLinked : IsLinked toy none (first_row ∷ [])
unfolding compute_row_hash sorted_payload
first-IsLinked = (refl, refl, tt)

moved-IsLinked : IsLinked toy none (moved ∷ [])
unfolding compute_row_hash sorted_payload payload
moved-IsLinked = (refl, refl, tt)

same_tip-same_content_example : map content (first_row ∷ []) ≡ map content (moved ∷ [])
unfolding sorted_payload payload
same_tip-same_content_example =
    same_tip-same_content toy (first_row ∷ []) (moved ∷ []) refl (((λ _. refl), tt), tt)
      first-IsLinked moved-IsLinked refl

first-IsHonest : IsHonest toy (first_row ∷ [])
unfolding compute_row_hash
first-IsHonest = record {
  linked = first-IsLinked;
  chronicle = (tt, tt);
  numbered = ((1, refl), tt);
}

early-before : before early.timestamp (latest_from first_row []).timestamp ≡ true
unfolding latest_from
early-before = refl

hashes_differ :
    opt_eq
      (some (compute_row_hash toy early (tip none (first_row ∷ []))))
      (tip none (first_row ∷ []))
    ≡ false
unfolding compute_row_hash sorted_payload payload concat sort_by
hashes_differ = refl

early-apart :
    some (compute_row_hash toy early (tip none (first_row ∷ []))) ≢ tip none (first_row ∷ [])
early-apart e =
    let own = some (compute_row_hash toy early (tip none (first_row ∷ []))) in
    cc (ap (opt_eq own) e, opt_eq_refl own, hashes_differ)

out_of_order-breaks_example :
    (verify_audit_hash_chain toy
      (append_event_sqlite toy later (append_event_sqlite toy early (first_row ∷ [])))).valid
    ≡ false
out_of_order-breaks_example =
    out_of_order-breaks toy early later first_row [] first-IsHonest early-before early-apart

verify-edited_example :
    verify_audit_hash_chain toy
      (map (edited (λ _. "elsewhere") (λ _. none) (λ _. none) (λ _. none)) log)
    ≡ verify_audit_hash_chain toy log
verify-edited_example = verify-edited (λ _. "elsewhere") (λ _. none) (λ _. none) (λ _. none) toy log

abbrev signed : Grant
signed = value_or deploy (sign_grant flat deploy)

signs : sign_grant flat deploy ≡ ok signed
unfolding sign_grant
signs = refl

sign_grant-valid_example : verify_grant_signature flat signed ≡ valid
sign_grant-valid_example = sign_grant-valid flat flat-IsSound deploy signed signs

signed-valid : verify_grant_signature flat signed ≡ valid
signed-valid = sign_grant-valid flat flat-IsSound deploy signed signs

verify_grant_signature-valid_example :
    (signature : String) × (key_id : String) × (public_key : String) × (signed.signature
      ≡ some signature)
    × (signed.signing_key_id ≡ some key_id)
    × (signed.payload_hash ≡ some (payload_hash flat signed))
    × (flat.keyring key_id ≡ some public_key)
    × (flat.verify public_key signature (canonical_grant_payload signed) ≡ true)
verify_grant_signature-valid_example = verify_grant_signature-valid flat signed signed-valid

abbrev kept : Grant
kept = value_or deploy (sign_grant toy deploy)

kept-valid : verify_grant_signature toy kept ≡ valid
unfolding verify_grant_signature sign_grant payload_hash canonical_grant_payload join concat
kept-valid = refl

role-differs : "admin" ≢ kept.role
unfolding sign_grant
role-differs e = cc ((eq_iff "admin" "agent").1 e)

tampered_role-mismatch_example :
    verify_grant_signature toy (record kept { role = "admin" }) ≡ hash_mismatch
unfolding payload_hash
tampered_role-mismatch_example =
    tampered_role-mismatch toy kept "admin" kept-valid role-differs (λ e. e)

constraints_line-ambiguous_example :
    canonical_grant_payload (record deploy {
      valid_until = concat (deploy.valid_until ∷ "\n" ∷ "constraints=" ∷ "{}" ∷ []);
      constraints = none;
    })
    ≡ canonical_grant_payload (record deploy { constraints = some "{}" })
constraints_line-ambiguous_example = constraints_line-ambiguous deploy "{}"
