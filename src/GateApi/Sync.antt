-- ===== src/GateApi/Sync.antt =====
-- `sync_offline`: what an upload stores, event by event.
use parking_system.Common.{
  ◌≡◌, ◌⊎◌, refl, ◌∙◌, ap, subst, Bool, true, false, ◌++◌, some, List, [], ◌∷◌, inl, inr,
  Option-cases, is_some, first,
}
use parking_system.Python.{Text}
use parking_system.Model.{Gate}
use parking_system.Store.{Db}
use parking_system.Gate.Request.{Config, event_key}
use parking_system.Gate.Process.{
  Outcome, answered, gate_not_found, integrity_error, process_plate_event, has_code,
  session_conflict,
}
use parking_system.Gate.Process.Stored.{knows, Keeps, process-IsStored, no_gate}
use parking_system.GateApi.{
  Detected, SyncRow, sync_request, sync_row, sync_events, breaks_session, answer_of,
}

-- Of an event at a gate of the centre: its key.
abbrev pub key_at : Gate → Detected → Text
key_at gate e = gate.code ++ (b':' ∷ e.source_event_id)

-- A line of the answer for an event: it names the event, and where it has no error, the event is
-- stored, or it is an entry that met an open session.
pub record Settled (gates : List Gate) (db : Db) (e : Detected) (row : SyncRow) : Type 0 where
  pub names : row.source_event_id ≡ e.source_event_id
  pub stored :
      is_some row.answer ≡ true
      → (gate : Gate) × (first (has_code e.gate_code) gates ≡ some gate)
        × ((knows (key_at gate e) db ≡ true) ⊎ (row.answer ≡ some (answer_of session_conflict)))

abbrev pub AllSettled : List Gate → Db → List Detected → List SyncRow → Type 0
AllSettled gates db [] [] = Unit
AllSettled gates db (e ∷ es) (row ∷ rows) = Settled gates db e row × AllSettled gates db es rows
AllSettled gates db _ _ = ⊥

Keeps-trans : (a b c : Db) → Keeps a b → Keeps b c → Keeps a c
Keeps-trans a b c f g = record { gates = g.gates ∙ f.gates; known = λ k h. g.known k (f.known k h) }

Keeps-refl : (a : Db) → Keeps a a
Keeps-refl a = record { gates = refl; known = λ k h. h }

-- What the event of an upload leaves, whatever comes of it.
row-Settled :
    (cfg : Config) (db : Db) (e : Detected) (o : Outcome)
    → process_plate_event cfg db db (sync_request e) ≡ o
    → Keeps db (sync_row e.source_event_id o db).1
      × Settled db.gates (sync_row e.source_event_id o db).1 e (sync_row e.source_event_id o db).0
unfolding sync_request event_key
row-Settled cfg db e gate_not_found h = (Keeps-refl db, record { names = refl; stored = λ k. cc })
row-Settled cfg db e integrity_error h = (Keeps-refl db, record { names = refl; stored = λ k. cc })
row-Settled cfg db e (answered a db') h =
    elim (Option-cases (first (has_code (sync_request e).gate_code) db.gates)) [
      | inl missing ↦ cc (h, no_gate cfg db db (sync_request e) missing)
      | inr (gate, found) ↦
          let s = process-IsStored cfg db db' (sync_request e) gate found refl h in
          (s.keeps, record { names = refl; stored = λ k. (gate, found, stored_at gate s.stored) })
    ]
  where
    stored_at :
        (gate : Gate)
        → (knows (event_key gate (sync_request e)) db' ≡ true) ⊎ (a ≡ session_conflict)
        → (knows (key_at gate e) db' ≡ true)
          ⊎ (some (answer_of a) ≡ some (answer_of session_conflict))
    stored_at gate (inl known) = inl known
    stored_at gate (inr met) = inr (ap (λ b. some (answer_of b)) met)

Settled-later :
    (gates : List Gate) (db db' : Db) (e : Detected) (row : SyncRow)
    → Keeps db db'
    → Settled gates db e row
    → Settled gates db' e row
Settled-later gates db db' e row k s = record {
  names = s.names;
  stored = λ h. let (gate, found, kept) = s.stored h in (gate, found, later gate kept);
}
  where
    later :
        (gate : Gate)
        → (knows (key_at gate e) db ≡ true) ⊎ (row.answer ≡ some (answer_of session_conflict))
        → (knows (key_at gate e) db' ≡ true) ⊎ (row.answer ≡ some (answer_of session_conflict))
    later gate (inl known) = inl (k.known (key_at gate e) known)
    later gate (inr met) = inr met

-- Every line of an upload's answer names its event; and where it has no error, the event is stored in
-- the end, or it is an entry that met an open session. No event that was stored is forgotten.
pub sync_events-AllSettled :
    (cfg : Config) (broken : Bool) (es : List Detected) (db : Db)
    → Keeps db (sync_events cfg broken es db).1
      × AllSettled db.gates (sync_events cfg broken es db).1 es (sync_events cfg broken es db).0
unfolding sync_events
sync_events-AllSettled cfg broken [] db = (Keeps-refl db, tt)
sync_events-AllSettled cfg true (e ∷ es) db =
    let (keeps, settled) = sync_events-AllSettled cfg true es db in
    (keeps, (record { names = refl; stored = λ k. cc }, settled))
sync_events-AllSettled cfg false (e ∷ es) db =
    let o = process_plate_event cfg db db (sync_request e) in
    let mid = (sync_row e.source_event_id o db).1 in
    let broken = breaks_session db (sync_request e) in
    let (first_keeps, settled) = row-Settled cfg db e o refl in
    let (keeps, rest) = sync_events-AllSettled cfg broken es mid in
    (
      Keeps-trans db mid (sync_events cfg broken es mid).1 first_keeps keeps,
      (
        Settled-later db.gates mid (sync_events cfg broken es mid).1 e
            (sync_row e.source_event_id o db).0 keeps settled,
        subst
            (λ g.
              AllSettled g (sync_events cfg broken es mid).1 es (sync_events cfg broken es mid).0)
            first_keeps.gates rest,
      ),
    )
