-- ===== src/GateApi/Upload/Arrival.antt =====
-- What the centre acknowledges has arrived.
use parking_system.Common.{
  ◌≡◌, ◌⊎◌, refl, sym, subst, Bool, true, false, not, ◌++◌, Option, none, some, some_same, List, [],
  ◌∷◌, map, inl, inr, Bool-cases, is_some, first, first_passes, All, if◌then◌else◌, text_eq,
  text_eq→eq, ltb,
}
use parking_system.Python.{Text}
use parking_system.Model.{Gate}
use parking_system.Store.{Db}
use parking_system.Gate.Process.{has_code, session_conflict}
use parking_system.Gate.Process.Stored.{knows}
use parking_system.Agent.{PendingEvent, SyncResult, result_for, acknowledged}
use parking_system.GateApi.{Detected, SyncRow, sort_events, insert_event, sort_key, answer_of}
use parking_system.GateApi.Sync.{Settled, AllSettled, key_at}
use parking_system.GateApi.Upload.{posted, to_result}

module _ (P : Detected → Type 0) where
  insert-All : (a : Detected) (es : List Detected) → P a → All P es → All P (insert_event a es)
  unfolding insert_event
  insert-All a [] h k = (h, tt)
  insert-All a (e ∷ es) h (k, ks) = elim (Bool-cases (ltb (sort_key e) (sort_key a))) [
    | inl later ↦ rw later (k, insert-All a es h ks)
    | inr sooner ↦ rw sooner (h, (k, ks))
  ]

  pub sort-All : (es : List Detected) → All P es → All P (sort_events es)
  unfolding sort_events
  sort-All [] h = tt
  sort-All (e ∷ es) (h, hs) = insert-All e (sort_events es) h (sort-All es hs)

-- The centre has the event of a key, or has let the vehicle in under another event.
abbrev pub Arrived : Text → Db → List SyncRow → Text → Type 0
Arrived code centre rows id =
    (knows (code ++ (b':' ∷ id)) centre ≡ true)
    ⊎ ((row : SyncRow) × (row.source_event_id ≡ id)
        × (row.answer ≡ some (answer_of session_conflict)))

code_of_gate :
    (code : Text) (gates : List Gate) {gate : Gate}
    → first (has_code code) gates ≡ some gate
    → gate.code ≡ code
code_of_gate code gates {gate} h = text_eq→eq gate.code code (first_passes (has_code code) gates h)

pub untrue_of : (b : Bool) → not b ≡ false → b ≡ true
untrue_of true h = refl
untrue_of false h = cc

unfalse : (b : Bool) → not b ≡ true → b ≡ false
unfalse true h = cc
unfalse false h = refl

module _ (code : Text) (gates : List Gate) (centre : Db) (all : List SyncRow) where
  Settled-Arrived :
      (e : Detected) (row : SyncRow)
      → Settled gates centre e row
      → e.gate_code ≡ code
      → is_some row.answer ≡ true
      → Arrived code centre all row.source_event_id
  Settled-Arrived e row s here ok =
      let (gate, found, kept) = s.stored ok in
      by_key gate
        (code_of_gate code gates (subst (λ c. first (has_code c) gates ≡ some gate) here found))
        kept
    where
      by_key :
          (gate : Gate)
          → gate.code ≡ code
          → (knows (key_at gate e) centre ≡ true) ⊎ (row.answer ≡ some (answer_of session_conflict))
          → Arrived code centre all row.source_event_id
      by_key gate same (inl known) = inl (
          subst (λ c. knows (c ++ (b':' ∷ row.source_event_id)) centre ≡ true) same
            (subst (λ i. knows (gate.code ++ (b':' ∷ i)) centre ≡ true) (sym s.names) known))
      by_key gate same (inr met) = inr (row, refl, met)

  -- The last line for an event has no error: the event has arrived.
  result-Arrived :
      (id : Text) (es : List Detected) (rows : List SyncRow) {r : SyncResult}
      → AllSettled gates centre es rows
      → All (λ e. e.gate_code ≡ code) es
      → result_for id (map to_result rows) ≡ some r
      → r.is_error ≡ false
      → Arrived code centre all id
  unfolding result_for
  result-Arrived id [] [] s here found fine = cc
  result-Arrived id [] (row ∷ rows) s here found fine = absurd s
  result-Arrived id (e ∷ es) [] s here found fine = absurd s
  result-Arrived id (e ∷ es) (row ∷ rows) {r} (s, ss) (here, heres) found fine =
      last (result_for id (map to_result rows)) (λ k. result-Arrived id es rows ss heres k fine)
        found
    where
      mine : text_eq row.source_event_id id ≡ true → to_result row ≡ r → Arrived code centre all id
      mine same e_r = subst (Arrived code centre all) (text_eq→eq row.source_event_id id same) (
          Settled-Arrived e row s here
            (untrue_of (is_some row.answer) (subst (λ q. q.is_error ≡ false) (sym e_r) fine)))

      last :
          (o : Option SyncResult)
          → (o ≡ some r → Arrived code centre all id)
          → elim o [
            | some q ↦ some q
            | none ↦ if text_eq row.source_event_id id then some (to_result row) else none
          ]
            ≡ some r
          → Arrived code centre all id
      last (some q) rest k = rest k
      last none rest k = elim (Bool-cases (text_eq row.source_event_id id)) [
        | inl same ↦ mine same (some_same (simp same at k))
        | inr other ↦ cc (simp other at k)
      ]

  -- An event that the answer acknowledges has arrived.
  pub acknowledged-Arrived :
      (es : List Detected) (rows : List SyncRow) (p : PendingEvent)
      → AllSettled gates centre es rows
      → All (λ e. e.gate_code ≡ code) es
      → acknowledged (map to_result rows) p ≡ true
      → Arrived code centre all p.source_event_id
  unfolding acknowledged
  acknowledged-Arrived es rows p s here h =
      split (result_for p.source_event_id (map to_result rows)) refl h
    where
      split :
          (o : Option SyncResult)
          → result_for p.source_event_id (map to_result rows) ≡ o
          → elim o [ none ↦ false | some r ↦ not r.is_error ] ≡ true
          → Arrived code centre all p.source_event_id
      split none found k = cc
      split (some r) found k =
          result-Arrived p.source_event_id es rows s here found (unfalse r.is_error k)

pub posted_here :
    (code : Text) (draw : PendingEvent → Detected) (ps : List PendingEvent)
    → All (λ e. e.gate_code ≡ code) (map (posted code draw) ps)
unfolding posted
posted_here code draw [] = tt
posted_here code draw (p ∷ ps) = (refl, posted_here code draw ps)
