-- ===== src/Policy/Requirements/Items.antt =====
-- The evidence and the exclusions of a policy pack (backend/src/policy/policy_requirements.py).
use grantlayer.Prelude.{
  String, ◌≡◌, refl, ◌⊎◌, ◌↔◌, inl, inr, true, false, Option, none, some, List, [], ◌∷◌, ◌++◌,
  arith, ◌==◌, is_empty, mem, All, Bool-cases, Option-cases,
}
use grantlayer.Policy.Requirements.Rules.{
  Reader, PolicyPack, Subject, Exclusion, types_of, codes_of, note, EvidenceItem, evidence_item,
  scan_evidence, no_evidence, add_evidence, exclusion_item, scan_exclusions, no_violations,
  evaluate_required_evidence, evaluate_exclusions,
}

pub append-empty : (xs ys : List String) → (xs ++ ys ≡ []) ↔ ((xs ≡ []) × (ys ≡ []))
append-empty [] ys = (λ h. (refl, h), λ h. h.1)
append-empty (x ∷ xs) ys = (λ h. absurd (ground arith), λ h. absurd (ground arith))

-- The kind of evidence is not named, or the subject has it.
pub IsPresent : List String → Option EvidenceItem → Type 0
IsPresent types none = Unit
IsPresent types (some item) = (is_empty item.kind ≡ true) ⊎ (mem item.kind types ≡ true)

evidence_item-IsPresent :
    (types : List String) (i : Option EvidenceItem)
    → (((evidence_item types i).blockers ≡ []) × ((evidence_item types i).warnings ≡ []))
      ↔ IsPresent types i
unfolding evidence_item no_evidence note IsPresent
evidence_item-IsPresent types none = (λ h. tt, λ h. (refl, refl))
evidence_item-IsPresent types (some item) = elim (Bool-cases (is_empty item.kind)) [
  | inl e ↦ rw e (λ h. inl refl, λ h. (refl, refl))
  | inr e ↦ elim (Bool-cases (mem item.kind types)) [
    | inl m ↦ rw (e, m) (λ h. inr refl, λ h. (refl, refl))
    | inr m ↦ elim (Bool-cases item.required) [
      | inl q ↦ rw (e, m, q) (λ h. absurd (ground (arith, h.0)), λ h. absurd (ground (arith, h)))
      | inr q ↦ rw (e, m, q) (λ h. absurd (ground (arith, h.1)), λ h. absurd (ground (arith, h)))
    ]
  ]
]

-- Both lists of messages of a scan are empty where those of the item and of the rest are.
pub both-empty :
    (xs ys us vs : List String)
    → ((xs ++ ys ≡ []) × (us ++ vs ≡ [])) ↔ (((xs ≡ []) × (us ≡ [])) × ((ys ≡ []) × (vs ≡ [])))
both-empty xs ys us vs =
    let p = append-empty xs ys in
    let q = append-empty us vs in
    (
      λ h. (((p.0 h.0).0, (q.0 h.1).0), ((p.0 h.0).1, (q.0 h.1).1)),
      λ h. (p.1 (h.0.0, h.1.0), q.1 (h.0.1, h.1.1)),
    )

scan_evidence-All :
    (types : List String) (items : List (Option EvidenceItem))
    → (((scan_evidence types items).blockers ≡ []) × ((scan_evidence types items).warnings ≡ []))
      ↔ All (IsPresent types) items
unfolding scan_evidence add_evidence no_evidence
scan_evidence-All types [] = (λ h. tt, λ h. (refl, refl))
scan_evidence-All types (i ∷ items) =
    let one = evidence_item-IsPresent types i in
    let rest = scan_evidence-All types items in
    let a = evidence_item types i in
    let b = scan_evidence types items in
    let both = both-empty a.blockers b.blockers a.warnings b.warnings in
    (λ h. let k = both.0 h in (one.0 k.0, rest.0 k.1), λ h. both.1 (one.1 h.0, rest.1 h.1))

-- Every item of a list, where there is one.
unfoldable pub Each : {A : Type 0} → (A → Type 0) → Option (List A) → Type 0
Each P none = Unit
Each P (some xs) = All P xs

pub evidence-Each :
    (pack : PolicyPack) (subject : Option Subject)
    → (((evaluate_required_evidence pack subject).blockers ≡ [])
        × ((evaluate_required_evidence pack subject).warnings ≡ []))
      ↔ Each (IsPresent (types_of subject)) pack.required_evidence
unfolding evaluate_required_evidence no_evidence Each
evidence-Each pack subject = elim (Option-cases pack.required_evidence) [
  | inl e ↦ rw e (λ h. tt, λ h. (refl, refl))
  | inr (items, e) ↦ rw e (scan_evidence-All (types_of subject) items)
]

-- The code of the exclusion is not named, or the subject does not have it.
pub IsAllowed : List String → Option Exclusion → Type 0
IsAllowed codes none = Unit
IsAllowed codes (some item) = (is_empty item.code ≡ true) ⊎ (mem item.code codes ≡ false)

module _ (r : Reader) where
  exclusion_item-IsAllowed :
      (codes : List String) (i : Option Exclusion)
      → (((exclusion_item r codes i).blockers ≡ []) × ((exclusion_item r codes i).warnings ≡ []))
        ↔ IsAllowed codes i
  unfolding exclusion_item no_violations note IsAllowed
  exclusion_item-IsAllowed codes none = (λ h. tt, λ h. (refl, refl))
  exclusion_item-IsAllowed codes (some item) = elim (Bool-cases (is_empty item.code)) [
    | inl e ↦ rw e (λ h. inl refl, λ h. (refl, refl))
    | inr e ↦ elim (Bool-cases (mem item.code codes)) [
      | inr m ↦ rw (e, m) (λ h. inr refl, λ h. (refl, refl))
      | inl m ↦ elim (Bool-cases (r.lower item.severity == "blocking")) [
        | inl q ↦ rw (e, m, q) (λ h. absurd (ground (arith, h.0)), λ h. absurd (ground (arith, h)))
        | inr q ↦ rw (e, m, q) (λ h. absurd (ground (arith, h.1)), λ h. absurd (ground (arith, h)))
      ]
    ]
  ]

  scan_exclusions-All :
      (codes : List String) (items : List (Option Exclusion))
      → (((scan_exclusions r codes items).blockers ≡ [])
          × ((scan_exclusions r codes items).warnings ≡ []))
        ↔ All (IsAllowed codes) items
  unfolding scan_exclusions no_violations
  scan_exclusions-All codes [] = (λ h. tt, λ h. (refl, refl))
  scan_exclusions-All codes (i ∷ items) =
      let one = exclusion_item-IsAllowed codes i in
      let rest = scan_exclusions-All codes items in
      let a = exclusion_item r codes i in
      let b = scan_exclusions r codes items in
      let both = both-empty a.blockers b.blockers a.warnings b.warnings in
      (λ h. let k = both.0 h in (one.0 k.0, rest.0 k.1), λ h. both.1 (one.1 h.0, rest.1 h.1))

  pub exclusions-Each :
      (pack : PolicyPack) (subject : Option Subject)
      → (((evaluate_exclusions r pack subject).blockers ≡ [])
          × ((evaluate_exclusions r pack subject).warnings ≡ []))
        ↔ Each (IsAllowed (codes_of subject)) pack.exclusions
  unfolding evaluate_exclusions no_violations Each
  exclusions-Each pack subject = elim (Option-cases pack.exclusions) [
    | inl e ↦ rw e (λ h. tt, λ h. (refl, refl))
    | inr (items, e) ↦ rw e (scan_exclusions-All (codes_of subject) items)
  ]
