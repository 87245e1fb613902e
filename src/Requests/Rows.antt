-- ===== src/Requests/Rows.antt =====
-- What a lookup and an update by id mean for the rows of the request table.
use grantlayer.Prelude.{
  String, ◌≡◌, refl, ap, sym, ◌∙◌, Bool, true, false, ◌&&◌, Option, some, List, [], ◌∷◌, ◌++◌,
  arith, eq_iff, update_where, any_where, first_where, All, Bool-cases, Option-cases, inl, inr,
}
use grantlayer.Models.{GrantRequest}
use grantlayer.Database.{RequestRow}
use grantlayer.Requests.{matches, has_id, get, update_request}

-- The ids of the rows differ from one another.
abbrev pub IsKeyed : List RequestRow → Type 0
IsKeyed [] = Unit
IsKeyed (row ∷ rows) = (any_where (has_id row.request.id) rows ≡ false) × IsKeyed rows

abbrev AreAll : String → GrantRequest → List RequestRow → Type 0
AreAll request_id request = All (λ row. has_id request_id row ≡ true → row.request ≡ request)

absent-AreAll :
    (request_id : String) (q : GrantRequest) (rows : List RequestRow)
    → any_where (has_id request_id) rows ≡ false
    → AreAll request_id q rows
unfolding any_where
absent-AreAll request_id q [] e = tt
absent-AreAll request_id q (r ∷ rows) e =
    (λ h. absurd (ground arith), absent-AreAll request_id q rows (ground arith))

present :
    (request_id : String) (p : RequestRow → Bool) (row : RequestRow) (rows : List RequestRow)
    → first_where (λ r. has_id request_id r && p r) rows ≡ some row
    → any_where (has_id request_id) rows ≡ true
unfolding first_where any_where
present request_id p row [] e = absurd (ground arith)
present request_id p row (r ∷ rows) e = elim (Bool-cases (has_id request_id r)) [
  | inl hit ↦ rw hit
  | inr miss ↦ ground (arith, present request_id p row rows (rw (miss, first_where) at e))
]

first_where-AreAll :
    (request_id : String) (p : RequestRow → Bool) (row : RequestRow) (rows : List RequestRow)
    → IsKeyed rows
    → first_where (λ r. has_id request_id r && p r) rows ≡ some row
    → AreAll request_id row.request rows
unfolding first_where
first_where-AreAll request_id p row [] k e = tt
first_where-AreAll request_id p row (r ∷ rows) k e = elim (Bool-cases (has_id request_id r)) [
  | inl hit ↦
      let id_eq : r.request.id ≡ request_id = (eq_iff r.request.id request_id).0 hit in
      let alone : any_where (has_id request_id) rows ≡ false =
        ap (λ i. any_where (has_id i) rows) (sym id_eq) ∙ k.0 in
      elim (Bool-cases (p r)) [
        | inl taken ↦
            let same : r ≡ row = ground arith in
            (
              λ _. ap (λ (x : RequestRow). x.request) same,
              absent-AreAll request_id row.request rows alone,
            )
        | inr left ↦
            absurd (cc (alone, present request_id p row rows (rw (hit, left, first_where) at e)))
      ]
  | inr miss ↦ (
    λ h. absurd (cc (h, miss)),
    first_where-AreAll request_id p row rows k.1 (rw (miss, first_where) at e),
  )
]

-- On a table with unique ids, a lookup finds the one row of its id.
pub get-AreAll :
    (request_id : String) (tenant_id workspace_id : Option String) (rows : List RequestRow)
    (q : GrantRequest)
    → IsKeyed rows
    → get request_id tenant_id workspace_id rows ≡ some q
    → All (λ row. has_id request_id row ≡ true → row.request ≡ q) rows
unfolding get
get-AreAll request_id t w rows q k e =
    let p = λ (r : RequestRow). matches t r.tenant_id && matches w r.workspace_id in
    elim (Option-cases (first_where (λ r. has_id request_id r && p r) rows)) [
      | inl absent ↦ absurd (cc (e, absent))
      | inr (row, found) ↦
          let same : row.request ≡ q = ground arith in
          rw (sym same) (first_where-AreAll request_id p row rows k found)
    ]

-- An update by id keeps what holds of every row, where it makes it hold of the rows it changes.
pub update_request-All :
    (P : GrantRequest → Type 0) (request_id : String) (f : GrantRequest → GrantRequest)
    (rows : List RequestRow)
    → All (λ row. P row.request) rows
    → All (λ row. has_id request_id row ≡ true → P (f row.request)) rows
    → All (λ row. P row.request) (update_request request_id f rows)
unfolding update_where
update_request-All P request_id f [] h g = tt
update_request-All P request_id f (r ∷ rows) h g = elim (Bool-cases (has_id request_id r)) [
  | inl hit ↦ rw hit (g.0 hit, update_request-All P request_id f rows h.1 g.1)
  | inr miss ↦ rw miss (h.0, update_request-All P request_id f rows h.1 g.1)
]

any_where-update :
    (id request_id : String) (f : GrantRequest → GrantRequest) (rows : List RequestRow)
    → ((q : GrantRequest) → (f q).id ≡ q.id)
    → any_where (has_id id) (update_request request_id f rows) ≡ any_where (has_id id) rows
unfolding update_where any_where
any_where-update id request_id f [] ids = refl
any_where-update id request_id f (r ∷ rows) ids = elim (Bool-cases (has_id request_id r)) [
  | inl e ↦ rw (e, ids r.request, any_where-update id request_id f rows ids)
  | inr e ↦ rw (e, any_where-update id request_id f rows ids)
]

pub update_request-IsKeyed :
    (request_id : String) (f : GrantRequest → GrantRequest) (rows : List RequestRow)
    → ((q : GrantRequest) → (f q).id ≡ q.id)
    → IsKeyed rows
    → IsKeyed (update_request request_id f rows)
unfolding update_where
update_request-IsKeyed request_id f [] ids k = tt
update_request-IsKeyed request_id f (r ∷ rows) ids k = elim (Bool-cases (has_id request_id r)) [
  | inl e ↦ rw e (
    rw (ids r.request) (any_where-update r.request.id request_id f rows ids ∙ k.0),
    update_request-IsKeyed request_id f rows ids k.1,
  )
  | inr e ↦ rw e (
    any_where-update r.request.id request_id f rows ids ∙ k.0,
    update_request-IsKeyed request_id f rows ids k.1,
  )
]

any_where-snoc :
    (p : RequestRow → Bool) (rows : List RequestRow) (row : RequestRow)
    → any_where p rows ≡ false
    → p row ≡ false
    → any_where p (rows ++ row ∷ []) ≡ false
unfolding any_where
any_where-snoc p [] row e h = ground arith
any_where-snoc p (r ∷ rows) row e h = ground (arith, any_where-snoc p rows row)

pub append-IsKeyed :
    (rows : List RequestRow) (row : RequestRow)
    → any_where (has_id row.request.id) rows ≡ false
    → IsKeyed rows
    → IsKeyed (rows ++ row ∷ [])
unfolding any_where
append-IsKeyed [] row e k = (refl, tt)
append-IsKeyed (r ∷ rows) row e k = (
  any_where-snoc (has_id r.request.id) rows row k.0
      (ground (arith, eq_iff r.request.id row.request.id, eq_iff row.request.id r.request.id)),
  append-IsKeyed rows row (ground arith) k.1,
)
