-- ===== src/Policy/Approval/Decision.antt =====
-- When an action needs approval, and of whom (backend/src/policy/approval_rules.py).
use grantlayer.Prelude.{
  String, ◌≡◌, refl, ap, ◌⊎◌, ◌↔◌, inl, inr, Bool, true, false, not, ◌&&◌, Option, none, some,
  arith, eq_iff, ◌==◌, is_empty, is_some, Bool-cases, Option-cases, or-false,
}
use grantlayer.Platform.{Json, null, text, boolean, integer, real, array, nested}
use grantlayer.Policy.Approval.Inputs.{
  EvidenceStatus, is_invalid, is_lacking, is_null, Python, Proposal, complete, missing, invalid,
  incomplete, is_text, extract_evidence, extract_permission, extract_policy, extract_compliance,
  normalize_risk_level, normalize_amount, normalize_text,
}
use grantlayer.Policy.Approval.{
  Signals, is_blocked, needs_four_eyes, needs_one_approval, decide, outcome, read_signals,
  is_missing, lower_is, reaches, is_false,
}

-- An evaluation that needs no approval found nothing to object to.
decide-clear :
    (s : Signals)
    → ((decide s).decision ≡ "no_approval_required")
      ↔ ((is_blocked s ≡ false) × (needs_four_eyes s ≡ false) × (needs_one_approval s ≡ false))
unfolding decide outcome
decide-clear s = elim (Bool-cases (is_blocked s)) [
  | inl b ↦ rw b (
    λ e. absurd (cc ((eq_iff "blocked" "no_approval_required").1 e)),
    λ h. absurd (ground (arith, h.0)),
  )
  | inr b ↦ elim (Bool-cases (needs_four_eyes s)) [
    | inl f ↦
        rw (b, f)
          (
            λ e. absurd (cc ((eq_iff "four_eyes_required" "no_approval_required").1 e)),
            λ h. absurd (ground (arith, h.1)),
          )
    | inr f ↦ elim (Bool-cases (needs_one_approval s)) [
      | inl o ↦
          rw (b, f, o)
            (
              λ e. absurd (cc ((eq_iff "approval_required" "no_approval_required").1 e)),
              λ h. absurd (ground (arith, h.2)),
            )
      | inr o ↦ rw (b, f, o) (λ e. (refl, refl, refl), λ h. refl)
    ]
  ]
]

-- By the values that the evaluator makes of its arguments: the proposal has an action; its permission was given and its evidence is complete; it is neither
-- blocked nor critical; its risk is low or not stated, its amount small or not stated; and no flag
-- asks for approval.
pub record IsCalm (py : Python) (p : Proposal) : Type 0 where
  pub action : is_missing py p.action ≡ false
  pub permission : extract_permission p.permission_result ≡ some true
  pub evidence : extract_evidence p.evidence_completeness ≡ complete
  pub status : lower_is py "blocked" (extract_compliance p.compliance_report).0 ≡ false
  pub severity : lower_is py "critical" (extract_compliance p.compliance_report).1 ≡ false
  pub risk :
      (normalize_risk_level py p.risk_level ≡ none)
      ⊎ (normalize_risk_level py p.risk_level ≡ some "low")
  pub amount :
      (p.amount ≡ null)
      ⊎ ((x : py.Float) × (normalize_amount py p.amount ≡ some x)
          × (py.at_least x 100000 ≡ false)
          × (py.at_least x 10000 ≡ false))
  pub four_eyes_flag : (extract_policy py p.policy_flags).requires_four_eyes ≡ false
  pub approval_flag : (extract_policy py p.policy_flags).requires_approval ≡ false

-- A risk level is none, one of the three that are known, or unknown.
text-risk :
    (py : Python) (t : String)
    → is_text "unknown" (normalize_text py t) ≡ false
    → is_text "high" (normalize_text py t) ≡ false
    → is_text "medium" (normalize_text py t) ≡ false
    → (normalize_text py t ≡ none) ⊎ (normalize_text py t ≡ some "low")
unfolding normalize_text is_text
text-risk py t u h m = elim (Bool-cases (t == "low")) [
  | inl e ↦ inr (rw e (ap some ((eq_iff t "low").0 e)))
  | inr e ↦ elim (Bool-cases (t == "high")) [
    | inl k ↦ absurd (ground arith)
    | inr k ↦ elim (Bool-cases (t == "medium")) [
      | inl l ↦ absurd (ground arith)
      | inr l ↦ elim (Bool-cases (is_empty t)) [
        | inl n ↦ inl (rw (e, k, l, n) refl)
        | inr n ↦ absurd (ground arith)
      ]
    ]
  ]
]

risk-cases :
    (py : Python) (r : Json)
    → is_text "unknown" (normalize_risk_level py r) ≡ false
    → is_text "high" (normalize_risk_level py r) ≡ false
    → is_text "medium" (normalize_risk_level py r) ≡ false
    → (normalize_risk_level py r ≡ none) ⊎ (normalize_risk_level py r ≡ some "low")
unfolding normalize_risk_level is_text
risk-cases py null u h m = inl refl
risk-cases py (text s) u h m = text-risk py (py.lower (py.strip s)) u h m
risk-cases py (boolean b) u h m = absurd (ground arith)
risk-cases py (integer n) u h m = absurd (ground arith)
risk-cases py real u h m = absurd (ground arith)
risk-cases py array u h m = absurd (ground arith)
risk-cases py nested u h m = absurd (ground arith)

evidence-complete :
    (e : EvidenceStatus) → is_invalid e ≡ false → is_lacking e ≡ false → e ≡ complete
evidence-complete complete h k = refl
evidence-complete missing h k = absurd (ground arith)
evidence-complete incomplete h k = absurd (ground arith)
evidence-complete invalid h k = absurd (ground arith)

permission-given : (o : Option Bool) → is_false o ≡ false → not (is_some o) ≡ false → o ≡ some true
permission-given none h k = absurd (ground arith)
permission-given (some true) h k = refl
permission-given (some false) h k = absurd (ground arith)

is_null→eq : (a : Json) → is_null a ≡ true → a ≡ null
is_null→eq null h = refl
is_null→eq (text s) h = absurd (ground arith)
is_null→eq (boolean b) h = absurd (ground arith)
is_null→eq (integer n) h = absurd (ground arith)
is_null→eq real h = absurd (ground arith)
is_null→eq array h = absurd (ground arith)
is_null→eq nested h = absurd (ground arith)

amount-small :
    (py : Python) (a : Json)
    → (not (is_null a) && not (is_some (normalize_amount py a))) ≡ false
    → reaches py 100000 (normalize_amount py a) ≡ false
    → reaches py 10000 (normalize_amount py a) ≡ false
    → (a ≡ null)
      ⊎ ((x : py.Float) × (normalize_amount py a ≡ some x)
          × (py.at_least x 100000 ≡ false)
          × (py.at_least x 10000 ≡ false))
unfolding reaches
amount-small py a h k l = elim (Bool-cases (is_null a)) [
  | inl e ↦ inl (is_null→eq a e)
  | inr e ↦ elim (Option-cases (normalize_amount py a)) [
    | inl m ↦ absurd (ground (arith, m))
    | inr (x, m) ↦ inr (x, m, rw m at k, rw m at l)
  ]
]

read_signals-IsCalm :
    (py : Python) (p : Proposal)
    → is_blocked (read_signals py p) ≡ false
    → needs_four_eyes (read_signals py p) ≡ false
    → needs_one_approval (read_signals py p) ≡ false
    → IsCalm py p
unfolding is_blocked needs_four_eyes needs_one_approval read_signals
read_signals-IsCalm py p b f o =
    let (action, b1) = or-false _ _ b in
    let (denied, b2) = or-false _ _ b1 in
    let (status, bad) = or-false _ _ b2 in
    let (high, f1) = or-false _ _ f in
    let (large, f2) = or-false _ _ f1 in
    let (critical, four) =
      or-false (not (is_blocked (read_signals py p)) && (read_signals py p).severity_critical) _
        f2 in
    let (odd, o1) = or-false _ _ o in
    let (unknown, o2) = or-false _ _ o1 in
    let (medium, o3) = or-false _ _ o2 in
    let (middle, o4) =
      or-false
        (not (read_signals py p).amount_high && reaches py 10000 (normalize_amount py p.amount)) _
        o3 in
    let (one, o5) = or-false _ _ o4 in
    let (lacking, absent) =
      or-false _ (not (is_blocked (read_signals py p)) && (read_signals py p).permission_missing)
        o5 in
    record {
      action = action;
      permission =
          permission-given (extract_permission p.permission_result) denied (rw b at absent);
      evidence = evidence-complete (extract_evidence p.evidence_completeness) bad lacking;
      status = status;
      severity = rw b at critical;
      risk = risk-cases py p.risk_level unknown high medium;
      amount = amount-small py p.amount odd large (rw large at middle);
      four_eyes_flag = four;
      approval_flag = one;
    }

and-false : (b : Bool) → (b && false) ≡ false
and-false true = refl
and-false false = refl

is_small :
    (py : Python) (a : Json)
    → (a ≡ null)
      ⊎ ((x : py.Float) × (normalize_amount py a ≡ some x)
          × (py.at_least x 100000 ≡ false)
          × (py.at_least x 10000 ≡ false))
    → ((not (is_null a) && not (is_some (normalize_amount py a))) ≡ false)
      × (reaches py 100000 (normalize_amount py a) ≡ false)
      × (reaches py 10000 (normalize_amount py a) ≡ false)
unfolding reaches
is_small py a (inl e) = rw e (unfold normalize_amount in (refl, refl, refl))
is_small py a (inr (x, m, k, l)) = (rw m (and-false (not (is_null a))), rw m k, rw m l)

is_low :
    (py : Python) (r : Option String)
    → (r ≡ none) ⊎ (r ≡ some "low")
    → (is_text "unknown" r ≡ false) × (is_text "high" r ≡ false) × (is_text "medium" r ≡ false)
unfolding is_text
is_low py r (inl e) = rw e (refl, refl, refl)
is_low py r (inr e) = rw e (refl, refl, refl)

IsCalm-read_signals :
    (py : Python) (p : Proposal)
    → IsCalm py p
    → (is_blocked (read_signals py p) ≡ false)
      × (needs_four_eyes (read_signals py p) ≡ false)
      × (needs_one_approval (read_signals py p) ≡ false)
unfolding is_blocked needs_four_eyes needs_one_approval read_signals
IsCalm-read_signals py p c =
    let amount = is_small py p.amount c.amount in
    let risk = is_low py (normalize_risk_level py p.risk_level) c.risk in
    rw
      (
        c.action, c.permission, c.evidence, c.status, c.severity, c.four_eyes_flag, c.approval_flag,
        risk.0, risk.1, risk.2, amount.0, amount.1, amount.2,
      )
      (refl, refl, refl)

-- The outcome is that no approval is needed exactly where the normalised values are calm.
pub decide-IsCalm :
    (py : Python) (p : Proposal)
    → ((decide (read_signals py p)).decision ≡ "no_approval_required") ↔ IsCalm py p
decide-IsCalm py p =
    let clear = decide-clear (read_signals py p) in
    (
      λ e. let h = clear.0 e in read_signals-IsCalm py p h.0 h.1 h.2,
      λ c. clear.1 (IsCalm-read_signals py p c),
    )
