-- ===== src/Finance/Charges/Report.antt =====
-- The debt that the report of the charges shows, summed over its rows.
use parking_system.Common.{ℕ, ◌+◌, ◌≡◌, List, [], ◌∷◌, total, arith}
use parking_system.Model.{Charge, ChargeStatus}
use parking_system.Finance.Charges.{
  charge_outstanding, Summary, no_rows, VoidedMode, separate, exclude, summarize_row,
  summarize_rows, summarize_charges_for_report,
}

-- What a row owes in the report.
abbrev pub owing : Charge → ℕ
owing c = elim c.status [ ChargeStatus.unpaid ↦ charge_outstanding c | _ ↦ 0 ]

summarize_debt :
    (rows : List Charge) (s : Summary)
    → (summarize_rows rows s).unpaid_total ≡ s.unpaid_total + total owing rows
unfolding summarize_rows total summarize_row
summarize_debt [] s = ground arith
summarize_debt (c ∷ rows) s = ground (arith, summarize_debt rows (summarize_row c.status c s))

-- The debt of the report, in both modes.
pub reported_debt :
    (rows : List Charge) (mode : VoidedMode)
    → (summarize_charges_for_report rows mode).unpaid_total ≡ total owing rows
unfolding summarize_charges_for_report
reported_debt rows separate = omega (arith, summarize_debt rows no_rows)
reported_debt rows exclude = omega (arith, summarize_debt rows no_rows)
