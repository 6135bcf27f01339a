-- ===== src/Vehicles/Permits.antt =====
-- The permit that is chosen for an entry.
use parking_system.Common.{
  ℕ, ◌≡◌, refl, sym, ◌∙◌, Bool, true, ◌&&◌, Option, none, some, List, arith, count, count-select,
  count-sort, first, first-sort, first_passes, first-none-count, select, sort_desc, All-select,
  All-sort, All-first, text_eq, ltb, All,
}
use parking_system.Python.{Python, Text}
use parking_system.Model.{AccessPermit}
use parking_system.Vehicles.{
  find_active_permit, active_permits, is_usable, is_active, chosen, permit_time_valid,
  permit_gate_allowed, permit_entries_available,
}

-- An active permit of the plate.
abbrev pub is_for : Text → AccessPermit → Bool
is_for plate p = text_eq p.plate_normalized plate && is_active p.status

abbrev pub made_later : AccessPermit → AccessPermit → Bool
made_later p q = ltb p.created_at q.created_at

chosen_first : (o : Option AccessPermit) (ps : List AccessPermit) → (chosen o ps).0 ≡ o
chosen_first none ps = refl
chosen_first (some p) ps = refl

module _ (py : Python) (table : List AccessPermit) (plate : Text) (gate : Option ℕ) (now : ℕ) where
  abbrev rows : List AccessPermit
  rows = select (is_for plate) table

  rows_mine : All (λ q. is_for plate q ≡ true) (sort_desc (λ q. q.created_at) rows)
  rows_mine =
      All-sort (λ q. is_for plate q ≡ true) (λ q. q.created_at) rows
        (All-select (λ q. is_for plate q ≡ true) (is_for plate) table (λ q k. k))

  found_is_newest :
      {p : AccessPermit}
      → first (is_usable py gate now) (sort_desc (λ q. q.created_at) rows) ≡ some p
      → (is_for plate p ≡ true)
        × (is_usable py gate now p ≡ true)
        × (count (λ q. is_for plate q && (is_usable py gate now q && made_later p q)) table ≡ 0)
  found_is_newest {p} found = (
    All-first (λ q. is_for plate q ≡ true) (is_usable py gate now)
        (sort_desc (λ q. q.created_at) rows) rows_mine found,
    first_passes (is_usable py gate now) (sort_desc (λ q. q.created_at) rows) found,
    sym (count-select (λ q. is_usable py gate now q && made_later p q) (is_for plate) table)
        ∙ first-sort (λ q. q.created_at) (is_usable py gate now) rows found,
  )

  -- The permit that is chosen is an active one of the plate that is in its time, for the gate, and has
  -- entries left; and of all that are so, none was made later.
  pub permit_is_newest :
      {p : AccessPermit}
      → (find_active_permit py table plate gate now).0 ≡ some p
      → (is_for plate p ≡ true)
        × ((permit_time_valid py p now).0 ≡ true)
        × (permit_gate_allowed p gate ≡ true)
        × ((permit_entries_available p).0 ≡ true)
        × (count (λ q. is_for plate q && (is_usable py gate now q && made_later p q)) table ≡ 0)
  unfolding find_active_permit active_permits is_usable
  permit_is_newest {p} h =
      let (mine, usable, newest) = found_is_newest (sym (chosen_first _ _) ∙ h) in
      (mine, ground arith, ground arith, ground arith, newest)

  -- Where no permit is chosen, the plate has none that could be used.
  pub no_permit_is_usable :
      (find_active_permit py table plate gate now).0 ≡ none
      → count (λ q. is_for plate q && is_usable py gate now q) table ≡ 0
  unfolding find_active_permit active_permits
  no_permit_is_usable h =
      sym (count-select (is_usable py gate now) (is_for plate) table)
      ∙ (sym (count-sort (λ q. q.created_at) (is_usable py gate now) rows)
          ∙ first-none-count (is_usable py gate now) (sort_desc (λ q. q.created_at) rows)
              (sym (chosen_first _ _) ∙ h))
