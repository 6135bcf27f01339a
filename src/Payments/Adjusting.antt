-- ===== src/Payments/Adjusting.antt =====
-- What an approved adjustment does to a charge.
use parking_system.Common.{
  ℕ, ◌≡◌, Bool, not, Option, none, some, List, [], ◌∷◌, arith, inl, inr, Bool-cases, All, update,
  ◌==◌, first, subst,
}
use parking_system.Common.Int.{ℤ, pos, ◌+ℤ◌, ◌≤ℤ◌, min_ℤ}
use parking_system.Model.{Charge}
use parking_system.Finance.Charges.{
  charge_outstanding, settle_charge, ApprovalPolicy, self_approval_decision,
}
use parking_system.Payments.{
  FinancialAdjustment, adjusted, adjust_charge, adjusts, approve_found, approve_adjustment,
  is_pending,
}

-- No charge is paid beyond its amount.
abbrev pub IsNotOverpaid : Charge → Type 0
IsNotOverpaid c = c.paid_amount ≤ℤ pos c.amount

adjust-IsNotOverpaid : (n : ℤ) (c : Charge) → IsNotOverpaid (adjust_charge n c)
unfolding adjust_charge settle_charge charge_outstanding min_ℤ ◌+ℤ◌
adjust-IsNotOverpaid n c = ground arith

update-IsNotOverpaid :
    (a : FinancialAdjustment) (cs : List Charge)
    → All IsNotOverpaid cs
    → All IsNotOverpaid (update (adjusts a) (adjust_charge a.amount) cs)
unfolding update
update-IsNotOverpaid a [] h = tt
update-IsNotOverpaid a (c ∷ cs) (h, hs) = elim (Bool-cases (adjusts a c)) [
  | inl hit ↦ rw hit (adjust-IsNotOverpaid a.amount c, update-IsNotOverpaid a cs hs)
  | inr miss ↦ rw miss (h, update-IsNotOverpaid a cs hs)
]

adjusted_same :
    {a b : Bool} {r s : List FinancialAdjustment} {c d : List Charge}
    → adjusted a r c ≡ adjusted b s d
    → c ≡ d
adjusted_same h = cc

found-IsNotOverpaid :
    (o : Option FinancialAdjustment) (policy : ApprovalPolicy) (user : Option ℕ) (now : ℕ)
    (rows rows' : List FinancialAdjustment) (cs cs' : List Charge) (self : Bool)
    → All IsNotOverpaid cs
    → approve_found o policy user now rows cs ≡ adjusted self rows' cs'
    → All IsNotOverpaid cs'
unfolding approve_found
found-IsNotOverpaid none policy user now rows rows' cs cs' self h e = cc
found-IsNotOverpaid (some a) policy user now rows rows' cs cs' self h e =
    elim (Bool-cases (not (is_pending a.status))) [
      | inl over ↦ cc (simp over at e)
      | inr waiting ↦
          elim (Bool-cases (not (self_approval_decision policy a.requested_by user).0)) [
            | inl blocked ↦ cc (simp (waiting, blocked) at e)
            | inr allowed ↦
                subst (All IsNotOverpaid) (adjusted_same (simp (waiting, allowed) at e))
                  (update-IsNotOverpaid a cs h)
          ]
    ]

-- Whatever amount was asked for, negative ones included, an approval leaves no charge paid beyond its
-- amount where none was before.
pub approve-IsNotOverpaid :
    (policy : ApprovalPolicy) (id : ℕ) (user : Option ℕ) (now : ℕ)
    (rows rows' : List FinancialAdjustment) (cs cs' : List Charge) (self : Bool)
    → All IsNotOverpaid cs
    → approve_adjustment policy id user now rows cs ≡ adjusted self rows' cs'
    → All IsNotOverpaid cs'
unfolding approve_adjustment
approve-IsNotOverpaid policy id user now rows rows' cs cs' self h e =
    found-IsNotOverpaid (first (λ b. b.id == id) rows) policy user now rows rows' cs cs' self h e
