-- ===== src/Audit/Fork.antt =====
-- An append reads the last hash in the order of the timestamps, the verification walks in the order
-- of the numbers (backend/src/audit/audit_log.py): logs on which the two disagree.
use grantlayer.Prelude.{
  String, ◌≡◌, refl, ap, ◌≢◌, ◌∙◌, sym, true, false, Option, none, some, List, [], ◌∷◌, ◌++◌, arith,
  before, before-flip, before_irrefl, if◌then◌else◌, eq_iff, All, All-append, All-map, IsOrdered,
  IsOrdered-snoc, sort_by-IsOrdered, select_kept, Bool-cases, inl, inr,
}
use grantlayer.Platform.{Platform}
use grantlayer.Models.{AuditEvent}
use grantlayer.Audit.{
  latest_from, is_later, compute_row_hash, get_latest_row_hash, linked, append_event_sqlite,
  get_next_seq_sqlite, verify_audit_hash_chain, chain_rows, fetch_all_audit_events_ordered,
  row_before, is_chained,
}
use grantlayer.Audit.Verify.{IsLinked, verify_audit_hash_chain-IsLinked}
use grantlayer.Audit.Append.{
  tip, IsNumberedBelow, HasNumber, IsHonest, IsLinked-chained, IsLinked-snoc, linked-IsLinked,
  latest-tip, latest_from-tip, IsOrdered-IsChronicle,
}
use grantlayer.Audit.Runs.{next_seq-above}

module _ (py : Platform) where
  IsLinked-last :
      (prev : Option String) (rows : List AuditEvent) (row : AuditEvent)
      → IsLinked py prev (rows ++ row ∷ [])
      → row.prev_hash ≡ tip prev rows
  IsLinked-last prev [] row h = h.0
  IsLinked-last prev (r ∷ rows) row h = IsLinked-last r.row_hash rows row h.2

  -- The rows are in the order of their numbers, and all of them carry a hash.
  abbrev pub IsInOrder : List AuditEvent → Type 0
  IsInOrder rows = chain_rows (fetch_all_audit_events_ordered rows) ≡ rows

  numbers-front :
      (row : AuditEvent) (rows : List AuditEvent)
      → All (IsNumberedBelow (get_next_seq_sqlite rows)) rows
      → All
          (λ r.
            row_before (linked py row (get_latest_row_hash rows) (get_next_seq_sqlite rows)) r
            ≡ false)
          rows
  unfolding row_before linked
  numbers-front row rows h = All-map rows (λ r (m, e, lt). rw (e, row_before) (ground arith)) h

  append-IsInOrder :
      (event : AuditEvent) (rows : List AuditEvent)
      → IsOrdered row_before rows
      → All HasNumber rows
      → IsLinked py none rows
      → IsInOrder (append_event_sqlite py event rows)
  unfolding append_event_sqlite chain_rows fetch_all_audit_events_ordered
  append-IsInOrder event rows o n h =
      let row = linked py event (get_latest_row_hash rows) (get_next_seq_sqlite rows) in
      rw
        (sort_by-IsOrdered row_before (rows ++ row ∷ [])
          (IsOrdered-snoc row_before rows row o (numbers-front event rows (next_seq-above rows n))))
        (select_kept is_chained (rows ++ row ∷ []) (
          (All-append (λ r. is_chained r ≡ true) rows (row ∷ [])).1
            (IsLinked-chained py none rows h, (unfold is_chained linked in refl, tt))))

  last_names :
      (event : AuditEvent) (rows : List AuditEvent)
      → IsLinked py none (append_event_sqlite py event rows)
      → get_latest_row_hash rows ≡ tip none rows
  unfolding append_event_sqlite linked
  last_names event rows h = IsLinked-last none rows _ h

  -- On a log that verifies, numbered in order, an append makes the verification fail whenever the
  -- hash of the row with the greatest timestamp is not the hash of the last row.
  pub append-breaks :
      (event : AuditEvent) (rows : List AuditEvent)
      → IsOrdered row_before rows
      → All HasNumber rows
      → IsLinked py none rows
      → get_latest_row_hash rows ≢ tip none rows
      → (verify_audit_hash_chain py (append_event_sqlite py event rows)).valid ≡ false
  append-breaks event rows o n h apart =
      let table = append_event_sqlite py event rows in
      elim (Bool-cases (verify_audit_hash_chain py table).valid) [
        | inr broken ↦ broken
        | inl valid ↦
            let chain = (verify_audit_hash_chain-IsLinked py table).0 valid in
            absurd (apart (last_names event rows (rw (append-IsInOrder event rows o n h) at chain)))
      ]

  later-append :
      (best : AuditEvent) (rows : List AuditEvent) (row : AuditEvent)
      → before row.timestamp (latest_from best rows).timestamp ≡ true
      → latest_from best (rows ++ row ∷ []) ≡ latest_from best rows
  unfolding latest_from is_later
  later-append best [] row h = ground (
    arith,
    before-flip row.timestamp best.timestamp,
    eq_iff best.timestamp row.timestamp,
    before_irrefl best.timestamp,
  )
  later-append best (r ∷ rows) row h = later-append (if is_later best r then r else best) rows row h

  latest-append :
      (first : AuditEvent) (rows : List AuditEvent) (row : AuditEvent)
      → All (λ r. is_chained r ≡ true) ((first ∷ rows) ++ row ∷ [])
      → before row.timestamp (latest_from first rows).timestamp ≡ true
      → get_latest_row_hash ((first ∷ rows) ++ row ∷ []) ≡ (latest_from first rows).row_hash
  unfolding get_latest_row_hash
  latest-append first rows row c h =
      rw (select_kept is_chained ((first ∷ rows) ++ row ∷ []) c)
        (ap (λ r. r.row_hash) (later-append first rows row h))

  tip-append :
      (prev : Option String) (rows : List AuditEvent) (row : AuditEvent)
      → tip prev (rows ++ row ∷ []) ≡ row.row_hash
  tip-append prev [] row = refl
  tip-append prev (r ∷ rows) row = tip-append r.row_hash rows row

  module _ (event : AuditEvent) (rows : List AuditEvent) (h : IsHonest py rows) where
    append-IsOrdered : IsOrdered row_before (append_event_sqlite py event rows)
    unfolding append_event_sqlite
    append-IsOrdered =
        IsOrdered-snoc row_before rows
          (linked py event (get_latest_row_hash rows) (get_next_seq_sqlite rows))
          (IsOrdered-IsChronicle rows h.chronicle)
          (numbers-front event rows (next_seq-above rows h.numbered))

    append-HasNumber : All HasNumber (append_event_sqlite py event rows)
    unfolding append_event_sqlite linked
    append-HasNumber =
        (All-append HasNumber rows _).1 (h.numbered, ((get_next_seq_sqlite rows, refl), tt))

    append-IsLinked : IsLinked py none (append_event_sqlite py event rows)
    unfolding append_event_sqlite
    append-IsLinked = IsLinked-snoc py none rows _ h.linked (
        rw (← latest-tip py rows h)
          (linked-IsLinked py event (get_latest_row_hash rows) (get_next_seq_sqlite rows)))

    append-tip :
        tip none (append_event_sqlite py event rows)
        ≡ some (compute_row_hash py event (tip none rows))
    unfolding append_event_sqlite linked
    append-tip =
        tip-append none rows _ ∙ ap (λ p. some (compute_row_hash py event p)) (latest-tip py rows h)

  late-latest :
      (late first : AuditEvent) (rows : List AuditEvent)
      → IsHonest py (first ∷ rows)
      → before late.timestamp (latest_from first rows).timestamp ≡ true
      → get_latest_row_hash (append_event_sqlite py late (first ∷ rows)) ≡ tip none (first ∷ rows)
  unfolding append_event_sqlite linked
  late-latest late first rows h early =
      latest-append first rows _
        (IsLinked-chained py none (append_event_sqlite py late (first ∷ rows))
          (append-IsLinked late (first ∷ rows) h))
        early
      ∙ latest_from-tip first rows h.chronicle

  -- On an honest log, one event with a timestamp before the newest row's, whose hash is another than
  -- that row's, makes the next append break the verification, whatever that next event is.
  pub out_of_order-breaks :
      (late next first : AuditEvent) (rows : List AuditEvent)
      → IsHonest py (first ∷ rows)
      → before late.timestamp (latest_from first rows).timestamp ≡ true
      → some (compute_row_hash py late (tip none (first ∷ rows))) ≢ tip none (first ∷ rows)
      → (verify_audit_hash_chain py
          (append_event_sqlite py next (append_event_sqlite py late (first ∷ rows)))).valid
        ≡ false
  out_of_order-breaks late next first rows h early apart =
      append-breaks next (append_event_sqlite py late (first ∷ rows))
        (append-IsOrdered late (first ∷ rows) h) (append-HasNumber late (first ∷ rows) h)
        (append-IsLinked late (first ∷ rows) h)
        (λ same.
          apart (
            sym (append-tip late (first ∷ rows) h)
            ∙ sym same
            ∙ late-latest late first rows h early))
