-- ===== src/Policy/Approval/Values.antt =====
-- What the evaluation of approvals asks of the action, the risk, the flags and the amount
-- (backend/src/policy/approval_rules.py).
use grantlayer.Prelude.{
  String, ◌≡◌, ◌≢◌, refl, sym, ◌⊎◌, ◌↔◌, inl, inr, Bool, true, false, not, ◌&&◌, Option, none, some,
  List, [], ◌∷◌, arith, eq_iff, ◌==◌, is_empty, All, Bool-cases,
}
use grantlayer.Platform.{Json, null, text, boolean, integer, real, array, nested}
use grantlayer.Policy.Approval.Inputs.{
  Python, PolicyFlags, no_flags, not_list, flags, is_null, extract_policy, normalize_text,
  normalize_risk_level, normalize_amount, add_flag, scan_flags,
}
use grantlayer.Policy.Approval.{is_missing}

-- Anything but None and a text of blanks.
pub IsNamed : Python → Json → Type 0
IsNamed py null = ⊥
IsNamed py (text s) = py.strip s ≢ ""
IsNamed py (boolean b) = Unit
IsNamed py (integer n) = Unit
IsNamed py real = Unit
IsNamed py array = Unit
IsNamed py nested = Unit

-- The risk is not stated, by None or by blanks, or it is low.
pub IsLowRisk : Python → Json → Type 0
IsLowRisk py j =
    (j ≡ null)
    ⊎ ((s : String) × (j ≡ text s)
        × ((py.lower (py.strip s) ≡ "") ⊎ (py.lower (py.strip s) ≡ "low")))

-- A flag that asks for no approval.
pub IsMild : Python → Option String → Type 0
IsMild py none = Unit
IsMild py (some s) =
    (py.lower (py.strip s) ≢ "requires_approval") × (py.lower (py.strip s) ≢ "requires_four_eyes")

pub AreMild : Python → PolicyFlags → Type 0
AreMild py no_flags = Unit
AreMild py (not_list s) = Unit
AreMild py (flags fs) = All (IsMild py) fs

pub IsNamed-iff : (py : Python) (j : Json) → (is_missing py j ≡ false) ↔ IsNamed py j
unfolding is_missing IsNamed
IsNamed-iff py null = (λ h. absurd (ground arith), λ h. elim h [ ])
IsNamed-iff py (text s) =
    let one = eq_iff (py.strip s) "" in
    (λ h e. absurd (ground (arith, one)), λ h. ground (arith, one, h))
IsNamed-iff py (boolean b) = (λ h. tt, λ h. refl)
IsNamed-iff py (integer n) = (λ h. tt, λ h. refl)
IsNamed-iff py real = (λ h. tt, λ h. refl)
IsNamed-iff py array = (λ h. tt, λ h. refl)
IsNamed-iff py nested = (λ h. tt, λ h. refl)

text_risk_iff :
    (py : Python) (t : String)
    → ((normalize_text py t ≡ none) ⊎ (normalize_text py t ≡ some "low")) ↔ ((t ≡ "") ⊎ (t ≡ "low"))
unfolding normalize_text
text_risk_iff py t = (
  λ h. elim (Bool-cases (t == "low")) [
    | inl e ↦ inr ((eq_iff t "low").0 e)
    | inr e ↦ elim (Bool-cases (t == "")) [
      | inl n ↦ inl ((eq_iff t "").0 n)
      | inr n ↦ absurd (elim h [
        | inl k ↦ ground (arith, e, n)
        | inr k ↦ ground (arith, e, n, eq_iff t "low", eq_iff "unknown" "low")
      ])
    ]
  ],
  λ h. elim h [ inl e ↦ inl (rw e refl) | inr e ↦ inr (rw e refl) ],
)

-- A risk level that is no text is unknown.
unknown-risk :
    (j : Json) (py : Python)
    → (j ≢ null)
    → ((s : String) → j ≢ text s)
    → normalize_risk_level py j ≡ some "unknown"
    → ((normalize_risk_level py j ≡ none) ⊎ (normalize_risk_level py j ≡ some "low"))
      ↔ IsLowRisk py j
unfolding IsLowRisk
unknown-risk j py a b u = (
  λ h.
      absurd
        (elim h [ inl k ↦ ground (arith, u) | inr k ↦ ground (arith, u, eq_iff "unknown" "low") ]),
  λ h. absurd (elim h [ inl k ↦ a k | inr (s, k, _) ↦ b s k ]),
)

pub risk_iff :
    (py : Python) (j : Json)
    → ((normalize_risk_level py j ≡ none) ⊎ (normalize_risk_level py j ≡ some "low"))
      ↔ IsLowRisk py j
unfolding normalize_risk_level IsLowRisk
risk_iff py null = (λ h. inl refl, λ h. inl refl)
risk_iff py (text s) =
    let one = text_risk_iff py (py.lower (py.strip s)) in
    (
      λ h. inr (s, refl, one.0 h),
      λ h. elim h [
        | inl e ↦ absurd (ground arith)
        | inr (u, e, k) ↦ let same : s ≡ u = ground arith in one.1 (rw (sym same) at k)
      ],
    )
risk_iff py (boolean b) =
    unknown-risk (boolean b) py (λ e. absurd (ground arith)) (λ s e. absurd (ground arith)) refl
risk_iff py (integer n) =
    unknown-risk (integer n) py (λ e. absurd (ground arith)) (λ s e. absurd (ground arith)) refl
risk_iff py real =
    unknown-risk real py (λ e. absurd (ground arith)) (λ s e. absurd (ground arith)) refl
risk_iff py array =
    unknown-risk array py (λ e. absurd (ground arith)) (λ s e. absurd (ground arith)) refl
risk_iff py nested =
    unknown-risk nested py (λ e. absurd (ground arith)) (λ s e. absurd (ground arith)) refl

add_flag_iff :
    (py : Python) (f : Option String) (fs : List (Option String))
    → (((add_flag py f (scan_flags py fs)).requires_four_eyes ≡ false)
        × ((add_flag py f (scan_flags py fs)).requires_approval ≡ false))
      ↔ (IsMild py f
          × ((scan_flags py fs).requires_four_eyes ≡ false)
          × ((scan_flags py fs).requires_approval ≡ false))
unfolding add_flag IsMild
add_flag_iff py none fs = (λ h. (tt, h.0, h.1), λ h. (h.1, h.2))
add_flag_iff py (some s) fs =
    let flag = py.lower (py.strip s) in
    let one = eq_iff flag "requires_approval" in
    let two = eq_iff flag "requires_four_eyes" in
    elim (Bool-cases (flag == "requires_approval")) [
      | inl e ↦ rw e (λ h. absurd (ground (arith, h.1)), λ h. absurd (h.0.0 (one.0 e)))
      | inr e ↦ elim (Bool-cases (flag == "requires_four_eyes")) [
        | inl f ↦ rw (e, f) (λ h. absurd (ground (arith, h.0)), λ h. absurd (h.0.1 (two.0 f)))
        | inr f ↦
            let mild : (flag ≢ "requires_approval") × (flag ≢ "requires_four_eyes") =
              (λ k. let l = one.1 k in cc (l, e), λ k. let l = two.1 k in cc (l, f)) in
            elim (Bool-cases (is_empty flag)) [
              | inl g ↦ rw (e, f, g) (λ h. (mild, h.0, h.1), λ h. (h.1, h.2))
              | inr g ↦ rw (e, f, g) (λ h. (mild, h.0, h.1), λ h. (h.1, h.2))
            ]
      ]
    ]

scan_flags_iff :
    (py : Python) (fs : List (Option String))
    → (((scan_flags py fs).requires_four_eyes ≡ false)
        × ((scan_flags py fs).requires_approval ≡ false))
      ↔ All (IsMild py) fs
unfolding scan_flags
scan_flags_iff py [] = (λ h. tt, λ h. (refl, refl))
scan_flags_iff py (f ∷ fs) =
    let one = add_flag_iff py f fs in
    let rest = scan_flags_iff py fs in
    (
      λ h. let k = one.0 h in (k.0, rest.0 (k.1, k.2)),
      λ h. let k = rest.1 h.1 in one.1 (h.0, k.0, k.1),
    )

pub flags_iff :
    (py : Python) (f : PolicyFlags)
    → (((extract_policy py f).requires_four_eyes ≡ false)
        × ((extract_policy py f).requires_approval ≡ false))
      ↔ AreMild py f
unfolding extract_policy scan_flags AreMild
flags_iff py no_flags = (λ h. tt, λ h. (refl, refl))
flags_iff py (not_list s) = (λ h. tt, λ h. (refl, refl))
flags_iff py (flags fs) = scan_flags_iff py fs

pub normal : (py : Python) (j : Json) → j ≢ null → normalize_amount py j ≡ py.float j
unfolding normalize_amount
normal py null h = absurd (h refl)
normal py (text s) h = refl
normal py (boolean b) h = refl
normal py (integer n) h = refl
normal py real h = refl
normal py array h = refl
normal py nested h = refl

pub stated :
    (py : Python) (j : Json) (x : py.Float)
    → normalize_amount py j ≡ some x
    → (j ≢ null) × (py.float j ≡ some x)
unfolding normalize_amount
stated py null x h = absurd (ground arith)
stated py (text s) x h = (λ e. absurd (ground arith), h)
stated py (boolean b) x h = (λ e. absurd (ground arith), h)
stated py (integer n) x h = (λ e. absurd (ground arith), h)
stated py real x h = (λ e. absurd (ground arith), h)
stated py array x h = (λ e. absurd (ground arith), h)
stated py nested x h = (λ e. absurd (ground arith), h)

pub fits :
    (py : Python) (j : Json)
    → j ≢ null
    → not (is_null j) && py.overflows j ≡ false
    → py.overflows j ≡ false
fits py null h k = absurd (h refl)
fits py (text s) h k = k
fits py (boolean b) h k = k
fits py (integer n) h k = k
fits py real h k = k
fits py array h k = k
fits py nested h k = k

pub and_false : (b : Bool) → (b && false) ≡ false
and_false true = refl
and_false false = refl
