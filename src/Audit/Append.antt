-- ===== src/Audit/Append.antt =====
-- One append to a log whose rows were appended in the order of their timestamps
-- (backend/src/audit/audit_log.py, append_event).
use grantlayer.Prelude.{
  ℕ, ◌<◌, String, ◌≡◌, refl, true, false, Option, none, some, List, [], ◌∷◌, ◌++◌, inl, inr, arith,
  eq_iff, before, before-cases, All, All-append, All-map, IsOrdered, sort_by-IsOrdered, select_kept,
}
use grantlayer.Platform.{Platform}
use grantlayer.Models.{AuditEvent}
use grantlayer.Audit.{
  seq_below, is_later, latest_from, latest_hash, get_latest_row_hash, is_chained, chain_rows,
  row_before, fetch_all_audit_events_ordered, compute_row_hash, linked, append_event_postgres,
  sorted_payload, verify_audit_hash_chain,
}
use grantlayer.Audit.Verify.{IsLinked, verify_audit_hash_chain-IsLinked}

-- The row has a number below `n`.
abbrev pub IsNumberedBelow : ℕ → AuditEvent → Type 0
IsNumberedBelow n row = (m : ℕ) × (row.seq ≡ some m) × (m < n)

-- The second row was inserted after the first: its number is greater, its timestamp not before.
abbrev pub Follows : AuditEvent → AuditEvent → Type 0
Follows a b =
    (before b.timestamp a.timestamp ≡ false) × ((n : ℕ) × (b.seq ≡ some n) × IsNumberedBelow n a)

abbrev pub IsChronicle : List AuditEvent → Type 0
IsChronicle [] = Unit
IsChronicle (row ∷ rows) = All (Follows row) rows × IsChronicle rows

abbrev pub HasNumber : AuditEvent → Type 0
HasNumber row = (m : ℕ) × (row.seq ≡ some m)

-- A log that only appends have written, each with a timestamp not before those already there.
pub record IsHonest (py : Platform) (rows : List AuditEvent) : Type 0 where
  pub linked : IsLinked py none rows
  pub chronicle : IsChronicle rows
  pub numbered : All HasNumber rows

-- The hash that the next row has to name.
abbrev pub tip : Option String → List AuditEvent → Option String
tip prev [] = prev
tip prev (row ∷ rows) = tip row.row_hash rows

is_later-Follows : (a b : AuditEvent) → Follows a b → is_later a b ≡ true
unfolding is_later seq_below
is_later-Follows a b (t, (n, e, (m, f, lt))) = elim (before-cases b.timestamp a.timestamp t) [
  | inl earlier ↦ ground arith
  | inr same ↦ ground (arith, eq_iff a.timestamp b.timestamp)
]

pub latest_from-tip :
    (best : AuditEvent) (rows : List AuditEvent)
    → IsChronicle (best ∷ rows)
    → (latest_from best rows).row_hash ≡ tip best.row_hash rows
unfolding latest_from
latest_from-tip best [] h = refl
latest_from-tip best (row ∷ rows) h =
    rw (is_later-Follows best row h.0.0, latest_from) (latest_from-tip row rows h.1)

row_before-Follows : (a b : AuditEvent) → Follows a b → row_before b a ≡ false
unfolding row_before
row_before-Follows a b (t, (n, e, (m, f, lt))) = rw (e, f, row_before) (ground arith)

pub IsOrdered-IsChronicle : (rows : List AuditEvent) → IsChronicle rows → IsOrdered row_before rows
IsOrdered-IsChronicle [] h = tt
IsOrdered-IsChronicle (row ∷ rows) h =
    (All-map rows (row_before-Follows row) h.0, IsOrdered-IsChronicle rows h.1)

IsChronicle-snoc :
    (rows : List AuditEvent) (row : AuditEvent)
    → IsChronicle rows
    → All (λ r. Follows r row) rows
    → IsChronicle (rows ++ row ∷ [])
IsChronicle-snoc [] row h k = (tt, tt)
IsChronicle-snoc (r ∷ rows) row h k =
    ((All-append (Follows r) rows (row ∷ [])).1 (h.0, (k.0, tt)), IsChronicle-snoc rows row h.1 k.1)

module _ (py : Platform) where
  pub IsLinked-chained :
      (prev : Option String) (rows : List AuditEvent)
      → IsLinked py prev rows
      → All (λ r. is_chained r ≡ true) rows
  unfolding is_chained
  IsLinked-chained prev [] h = tt
  IsLinked-chained prev (row ∷ rows) h = (ground arith, IsLinked-chained row.row_hash rows h.2)

  pub IsLinked-snoc :
      (prev : Option String) (rows : List AuditEvent) (row : AuditEvent)
      → IsLinked py prev rows
      → IsLinked py (tip prev rows) (row ∷ [])
      → IsLinked py prev (rows ++ row ∷ [])
  IsLinked-snoc prev [] row h k = k
  IsLinked-snoc prev (r ∷ rows) row h k = (h.0, h.1, IsLinked-snoc r.row_hash rows row h.2 k)

  pub chain-IsHonest :
      (rows : List AuditEvent)
      → IsHonest py rows
      → chain_rows (fetch_all_audit_events_ordered rows) ≡ rows
  unfolding chain_rows fetch_all_audit_events_ordered
  chain-IsHonest rows h =
      rw (sort_by-IsOrdered row_before rows (IsOrdered-IsChronicle rows h.chronicle))
        (select_kept is_chained rows (IsLinked-chained none rows h.linked))

  -- A log of appends in the order of their timestamps verifies.
  pub IsHonest-valid :
      (rows : List AuditEvent) → IsHonest py rows → (verify_audit_hash_chain py rows).valid ≡ true
  IsHonest-valid rows h =
      (verify_audit_hash_chain-IsLinked py rows).1 (rw (chain-IsHonest rows h) h.linked)

  pub latest-tip :
      (rows : List AuditEvent) → IsHonest py rows → get_latest_row_hash rows ≡ tip none rows
  unfolding get_latest_row_hash
  latest-tip rows h =
      rw (select_kept is_chained rows (IsLinked-chained none rows h.linked)) (go rows h.chronicle)
    where
      go : (rs : List AuditEvent) → IsChronicle rs → latest_hash rs ≡ tip none rs
      go [] c = refl
      go (r ∷ rs) c = latest_from-tip r rs c

  -- The row of an append carries its own hash over the hash that it names.
  pub linked-IsLinked :
      (event : AuditEvent) (prev : Option String) (n : ℕ)
      → IsLinked py prev (linked py event prev n ∷ [])
  unfolding linked compute_row_hash sorted_payload
  linked-IsLinked event prev n = (refl, refl, tt)

  pub append-IsHonest :
      (n : ℕ) (event : AuditEvent) (rows : List AuditEvent)
      → IsHonest py rows
      → All (IsNumberedBelow n) rows
      → All (λ r. before event.timestamp r.timestamp ≡ false) rows
      → IsHonest py (append_event_postgres py n event rows)
  unfolding append_event_postgres linked
  append-IsHonest n event rows h below late =
      let prev = get_latest_row_hash rows in
      let row = linked py event prev n in
      record {
        linked =
            IsLinked-snoc none rows row h.linked
              (rw (← latest-tip rows h) (linked-IsLinked event prev n));
        chronicle = IsChronicle-snoc rows row h.chronicle (follows rows below late);
        numbered = (All-append HasNumber rows (row ∷ [])).1 (h.numbered, ((n, refl), tt));
      }
    where
      follows :
          (rs : List AuditEvent)
          → All (IsNumberedBelow n) rs
          → All (λ r. before event.timestamp r.timestamp ≡ false) rs
          → All (λ r. Follows r (linked py event (get_latest_row_hash rows) n)) rs
      follows [] b l = tt
      follows (r ∷ rs) b l = ((l.0, (n, refl, b.0)), follows rs b.1 l.1)
