-- ===== src/Audit/Runs.antt =====
-- Whole runs of SQLite appends (backend/src/audit/audit_log.py, _append_event_sqlite).
use grantlayer.Prelude.{
  ℕ, ◌≤◌, ◌≡◌, true, false, some, List, [], ◌∷◌, arith, before, All, All-append, All-map, IsOrdered,
}
use grantlayer.Platform.{Platform}
use grantlayer.Models.{AuditEvent}
use grantlayer.Audit.{
  seq_below, max_seq, or_zero, get_next_seq_sqlite, linked, append_event_sqlite,
  append_event_postgres, verify_audit_hash_chain,
}
use grantlayer.Audit.Append.{HasNumber, IsNumberedBelow, IsHonest, IsHonest-valid, append-IsHonest}

-- The row has a number, of at most `n`.
abbrev IsNumberedUpTo : ℕ → AuditEvent → Type 0
IsNumberedUpTo n row = (m : ℕ) × (row.seq ≡ some m) × (m ≤ n)

raise_bound :
    (row : AuditEvent) (rows : List AuditEvent) (m : ℕ)
    → row.seq ≡ some m
    → All (IsNumberedUpTo (or_zero (max_seq rows))) rows
    → (m ≤ or_zero (max_seq (row ∷ rows)))
      × (or_zero (max_seq rows) ≤ or_zero (max_seq (row ∷ rows)))
unfolding max_seq seq_below
raise_bound row rows m e h = ground arith

max_seq-bounds :
    (rows : List AuditEvent)
    → All HasNumber rows
    → All (IsNumberedUpTo (or_zero (max_seq rows))) rows
max_seq-bounds [] h = tt
max_seq-bounds (row ∷ rows) h =
    let below = max_seq-bounds rows h.1 in
    let (m, e) = h.0 in
    let bound = raise_bound row rows m e below in
    ((m, e, bound.0), All-map rows (λ r (k, f, le). (k, f, omega arith)) below)

-- The number that SQLite's append computes is above all that are there.
pub next_seq-above :
    (rows : List AuditEvent)
    → All HasNumber rows
    → All (IsNumberedBelow (get_next_seq_sqlite rows)) rows
unfolding get_next_seq_sqlite
next_seq-above rows h = All-map rows (λ r (k, f, le). (k, f, omega arith)) (max_seq-bounds rows h)

module _ (py : Platform) where
  pub sqlite-IsHonest :
      (event : AuditEvent) (rows : List AuditEvent)
      → IsHonest py rows
      → All (λ r. before event.timestamp r.timestamp ≡ false) rows
      → IsHonest py (append_event_sqlite py event rows)
  unfolding append_event_sqlite append_event_postgres
  sqlite-IsHonest event rows h late =
      append-IsHonest py (get_next_seq_sqlite rows) event rows h (next_seq-above rows h.numbered)
        late

  -- The log after the events have been appended, one after the other.
  pub append_all : List AuditEvent → List AuditEvent → List AuditEvent
  append_all [] rows = rows
  append_all (event ∷ events) rows = append_all events (append_event_sqlite py event rows)

  -- The events that are still to come are not before the rows that are there.
  abbrev AreLate : List AuditEvent → List AuditEvent → Type 0
  AreLate [] rows = Unit
  AreLate (e ∷ es) rows = All (λ r. before e.timestamp r.timestamp ≡ false) rows × AreLate es rows

  AreLate-append :
      (event : AuditEvent) (events rows : List AuditEvent)
      → AreLate events rows
      → All (λ e. before e.timestamp event.timestamp ≡ false) events
      → AreLate events (append_event_sqlite py event rows)
  unfolding append_event_sqlite linked
  AreLate-append event [] rows h k = tt
  AreLate-append event (e ∷ es) rows h k = (
    (All-append (λ r. before e.timestamp r.timestamp ≡ false) rows _).1 (h.0, (k.0, tt)),
    AreLate-append event es rows h.1 k.1,
  )

  append_all-IsHonest :
      (events rows : List AuditEvent)
      → IsHonest py rows
      → AreLate events rows
      → IsOrdered (λ a b. before a.timestamp b.timestamp) events
      → IsHonest py (append_all events rows)
  unfolding append_all
  append_all-IsHonest [] rows h late o = h
  append_all-IsHonest (e ∷ es) rows h late o =
      append_all-IsHonest es (append_event_sqlite py e rows) (sqlite-IsHonest e rows h late.0)
        (AreLate-append e es rows late.1 o.0) o.1

  AreLate-nil : (events : List AuditEvent) → AreLate events []
  AreLate-nil [] = tt
  AreLate-nil (e ∷ es) = (tt, AreLate-nil es)

  -- Events appended to an empty log, none with a timestamp before an earlier one's, leave a log that
  -- verifies.
  pub append_all-valid :
      (events : List AuditEvent)
      → IsOrdered (λ a b. before a.timestamp b.timestamp) events
      → (verify_audit_hash_chain py (append_all events [])).valid ≡ true
  append_all-valid events o = IsHonest-valid py (append_all events []) (
      append_all-IsHonest events [] (record { linked = tt; chronicle = tt; numbered = tt })
        (AreLate-nil events) o)
