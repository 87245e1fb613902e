-- ===== src/Policy/Requirements/Limits.antt =====
-- The deadlines and the amounts of a policy pack (backend/src/policy/policy_requirements.py).
use grantlayer.Prelude.{
  ℕ, ◌≤◌, String, ◌≡◌, refl, sym, ◌⊎◌, ◌↔◌, inl, inr, Bool, true, false, not, ◌&&◌, Option, none,
  some, List, [], ◌∷◌, arith, is_empty, ltb, All, Bool-cases, Option-cases, concat,
}
use grantlayer.Result.{Result, ok, ok-inj, after}
use grantlayer.Platform.{DateTime, aware, naive}
use grantlayer.Policy.Requirements.Rules.{
  Reader, PolicyPack, Subject, AmountLimits, Deadline, Ruling, ruling, note, parse_iso,
  amount_ruling,
}
use grantlayer.Policy.Requirements.{limits_ruling, is_null, differs, evaluate_amount_limits}
use grantlayer.Policy.Requirements.Deadlines.{
  Dates, no_dates, add_dates, missed, at_due, is_unset, deadline_status, deadline_item,
  scan_deadlines, evaluate_deadlines,
}
use grantlayer.Policy.Requirements.Items.{both-empty, Each}

module _ (r : Reader) where
  -- The deadline is not set, or it has a time zone and is not before now.
  pub IsAhead : ℕ → Option Deadline → Type 0
  IsAhead now none = Unit
  IsAhead now (some d) =
      (is_unset d.due_at ≡ true) ⊎ ((t : ℕ) × (parse_iso r d.due_at ≡ some (aware t)) × (now ≤ t))

  -- The loop went through, without a message.
  IsQuiet : Result Dates → Type 0
  IsQuiet m = (d : Dates) × (m ≡ ok d) × (d.blockers ≡ []) × (d.warnings ≡ [])

  missed-speaks :
      (q x : Bool) (s : String) (f : Dates)
      → ok (missed q x s) ≡ ok f
      → f.blockers ≡ []
      → f.warnings ≡ []
      → ⊥
  unfolding missed note
  missed-speaks true x s f e h k = let e' = ok-inj e in absurd (ground (arith, rw (sym e') at h))
  missed-speaks false x s f e h k = let e' = ok-inj e in absurd (ground (arith, rw (sym e') at k))

  at_due-IsQuiet :
      (now : ℕ) (d : Deadline) (o : Option DateTime)
      → IsQuiet (at_due now d o) ↔ ((t : ℕ) × (o ≡ some (aware t)) × (now ≤ t))
  unfolding at_due no_dates IsQuiet
  at_due-IsQuiet now d none = (
    λ (f, e, b, w). absurd (missed-speaks d.required false "deadline_malformed" f e b w),
    λ (t, e, l). absurd (ground arith),
  )
  at_due-IsQuiet now d (some (naive t)) =
      (λ (f, e, b, w). absurd (ground arith), λ (u, e, l). absurd (ground arith))
  at_due-IsQuiet now d (some (aware t)) = elim (Bool-cases (ltb t now)) [
    | inl late ↦ rw late (
      λ (f, e, b, w).
          absurd
            (missed-speaks d.required true (concat ("deadline_expired:" ∷ d.name ∷ [])) f e b w),
      λ (u, e, l). absurd (ground arith),
    )
    | inr ahead ↦ rw ahead (
      λ h. (t, refl, ground arith),
      λ h. (record no_dates { any_present = true }, refl, refl, refl),
    )
  ]

  deadline_item-IsAhead :
      (now : ℕ) (i : Option Deadline) → IsQuiet (deadline_item r now i) ↔ IsAhead now i
  unfolding deadline_item no_dates IsQuiet IsAhead
  deadline_item-IsAhead now none = (λ h. tt, λ h. (no_dates, refl, refl, refl))
  deadline_item-IsAhead now (some d) = elim (Bool-cases (is_unset d.due_at)) [
    | inl e ↦ rw e (λ h. inl refl, λ h. (no_dates, refl, refl, refl))
    | inr e ↦
        let due = at_due-IsQuiet now d (parse_iso r d.due_at) in
        rw e (λ h. inr (due.0 h), λ h. elim h [ inl u ↦ absurd (ground arith) | inr k ↦ due.1 k ])
  ]

  scan_deadlines-All :
      (now : ℕ) (items : List (Option Deadline))
      → IsQuiet (scan_deadlines r now items) ↔ All (IsAhead now) items
  unfolding scan_deadlines add_dates no_dates IsQuiet
  scan_deadlines-All now [] = (λ h. tt, λ h. (no_dates, refl, refl, refl))
  scan_deadlines-All now (i ∷ items) =
      let one = deadline_item-IsAhead now i in
      let rest = scan_deadlines-All now items in
      (
        λ (f, e, b, w). after (deadline_item r now i) _ e (λ x ex k.
            after (scan_deadlines r now items) _ k (λ y ey l.
              let f' = ok-inj l in
              let both =
                (both-empty x.blockers y.blockers x.warnings y.warnings).0
                  (rw (sym f') at b, rw (sym f') at w) in
              (one.0 (x, ex, both.0.0, both.0.1), rest.0 (y, ey, both.1.0, both.1.1)))),
        λ h.
            let (x, ex, bx, wx) = one.1 h.0 in
            let (y, ey, by_, wy) = rest.1 h.1 in
            let both =
              (both-empty x.blockers y.blockers x.warnings y.warnings).1 ((bx, wx), (by_, wy)) in
            rw (ex, ey) (add_dates x y, refl, both.0, both.1),
      )

  -- The conversion of an amount, and of the limit where there is one, succeeds, and the amount is
  -- not above the limit.
  pub IsWithin : Option r.Float → Bool → Option r.Float → Type 0
  IsWithin o limited m =
      (x : r.Float) × (o ≡ some x)
      × ((limited ≡ false) ⊎ ((y : r.Float) × (m ≡ some y) × (r.exceeds x y ≡ false)))

  amount_ruling-IsWithin :
      (o : Option r.Float) (limited : Bool) (m : Option r.Float)
      → (((amount_ruling r o limited m).blockers ≡ [])
          × ((amount_ruling r o limited m).warnings ≡ []))
        ↔ IsWithin o limited m
  unfolding amount_ruling ruling IsWithin
  amount_ruling-IsWithin none limited m =
      (λ h. absurd (ground (arith, h.1)), λ h. absurd (ground (arith, h.1)))
  amount_ruling-IsWithin (some x) false m = (λ h. (x, refl, inl refl), λ h. (refl, refl))
  amount_ruling-IsWithin (some x) true none = (
    λ h. absurd (ground (arith, h.1)),
    λ (z, e, k). elim k [ inl u ↦ absurd (ground arith) | inr (y, f, g) ↦ absurd (ground arith) ],
  )
  amount_ruling-IsWithin (some x) true (some y) = elim (Bool-cases (r.exceeds x y)) [
    | inl above ↦ rw above (
      λ h. absurd (ground (arith, h.0)),
      λ (z, e, k). elim k [ inl u ↦ absurd (ground arith) | inr (v, f, g) ↦ absurd (ground arith) ],
    )
    | inr below ↦ rw below (λ h. (x, refl, inr (y, refl, below)), λ h. (refl, refl))
  ]

  -- No amount and no currency is asked for, or the subject states none, or its currency is not
  -- another one and its amount is within the limit.
  pub IsAffordable : AmountLimits → Option Subject → Type 0
  IsAffordable limits none = Unit
  IsAffordable limits (some s) =
      ((is_null limits.max_amount && is_empty limits.currency) ≡ true)
      ⊎ ((is_null s.amount ≡ true)
          ⊎ ((differs limits.currency s.currency ≡ false)
              × IsWithin (r.float s.amount) (not (is_null limits.max_amount))
                  (r.float limits.max_amount)))

  limits_ruling-IsAffordable :
      (limits : AmountLimits) (subject : Option Subject)
      → (((limits_ruling r limits subject).blockers ≡ [])
          × ((limits_ruling r limits subject).warnings ≡ []))
        ↔ IsAffordable limits subject
  unfolding limits_ruling ruling IsAffordable
  limits_ruling-IsAffordable limits none =
      elim (Bool-cases (is_null limits.max_amount && is_empty limits.currency)) [
        | inl e ↦ rw e (λ h. tt, λ h. (refl, refl))
        | inr e ↦ rw e (λ h. tt, λ h. (refl, refl))
      ]
  limits_ruling-IsAffordable limits (some s) =
      elim (Bool-cases (is_null limits.max_amount && is_empty limits.currency)) [
        | inl e ↦ rw e (λ h. inl refl, λ h. (refl, refl))
        | inr e ↦ elim (Bool-cases (is_null s.amount)) [
          | inl n ↦ rw (e, n) (λ h. inr (inl refl), λ h. (refl, refl))
          | inr n ↦ elim (Bool-cases (differs limits.currency s.currency)) [
            | inl d ↦
                rw (e, n, d)
                  (
                    λ h. absurd (ground (arith, h.1)),
                    λ h. elim h [
                      | inl u ↦ absurd (ground arith)
                      | inr (inl u) ↦ absurd (ground arith)
                      | inr (inr u) ↦ absurd (ground (arith, u.0))
                    ],
                  )
            | inr d ↦
                let within =
                  amount_ruling-IsWithin (r.float s.amount) (not (is_null limits.max_amount))
                    (r.float limits.max_amount) in
                rw (e, n, d)
                  (
                    λ h. inr (inr (refl, within.0 h)),
                    λ h. elim h [
                      | inl u ↦ absurd (ground arith)
                      | inr (inl u) ↦ absurd (ground arith)
                      | inr (inr u) ↦ within.1 u.1
                    ],
                  )
          ]
        ]
      ]

  -- The limits, where there are any.
  pub IsInBudget : Option AmountLimits → Option Subject → Type 0
  IsInBudget none subject = Unit
  IsInBudget (some limits) subject = IsAffordable limits subject

  pub amount-IsInBudget :
      (pack : PolicyPack) (subject : Option Subject)
      → (((evaluate_amount_limits r pack subject).blockers ≡ [])
          × ((evaluate_amount_limits r pack subject).warnings ≡ []))
        ↔ IsInBudget pack.amount_limits subject
  unfolding evaluate_amount_limits ruling IsInBudget
  amount-IsInBudget pack subject = elim (Option-cases pack.amount_limits) [
    | inl e ↦ rw e (λ h. tt, λ h. (refl, refl))
    | inr (limits, e) ↦ rw e (limits_ruling-IsAffordable limits subject)
  ]

  pub deadlines-Each :
      (now : ℕ) (pack : PolicyPack)
      → ((x : Ruling) × (evaluate_deadlines r now pack ≡ ok x)
          × (x.blockers ≡ [])
          × (x.warnings ≡ []))
        ↔ Each (IsAhead now) pack.deadlines
  unfolding evaluate_deadlines ruling Each IsQuiet
  deadlines-Each now pack = elim (Option-cases pack.deadlines) [
    | inl e ↦ rw e (λ h. tt, λ h. (ruling "missing" [] [], refl, refl, refl))
    | inr (items, e) ↦
        let all = scan_deadlines-All now items in
        rw e (
          λ (x, ex, b, w).
              after (scan_deadlines r now items) _ ex
                (λ d ed k. let x' = ok-inj k in all.0 (d, ed, rw (sym x') at b, rw (sym x') at w)),
          λ h.
              let (d, ed, b, w) = all.1 h in
              rw ed (ruling (deadline_status d) d.blockers d.warnings, refl, b, w),
        )
  ]
