-- ===== src/Gate/Process/Stored.antt =====
-- What a call that is answered has stored.
use parking_system.Common.{
  ◌≡◌, ◌⊎◌, refl, sym, ap, subst, Bool, true, false, ◌&&◌, Option, none, some, List, [], ◌∷◌, ◌++◌,
  arith, inl, inr, Bool-cases, is_some, first, any, if◌then◌else◌, text_eq_refl,
}
use parking_system.Python.{Text}
use parking_system.Model.{Gate}
use parking_system.Store.{Db, AccessEvent, PlateRecognitionEvent, Warning}
use parking_system.Gate.Request.{Config, Request, event_key}
use parking_system.Gate.Decide.{Reading, read_event, decide}
use parking_system.Gate.Commit.{
  Committed, written, conflict, commit, new_event, find_event, has_key, recognition, same_source,
}
use parking_system.Gate.Commit.Index.{event_key_lem}
use parking_system.Gate.Commit.Events.{Adds, commit-Adds}
use parking_system.Gate.Process.{
  Response, answered, gate_not_found, integrity_error, duplicate_response, session_conflict,
  run_event, after_conflict, process_plate_event, has_code, verdict_response, has_open, is_entry,
}

-- Is there an event for a key?
abbrev pub knows : Text → Db → Bool
knows key db = is_some (find_event db key)

first-append {ℓ} :
    {A : Type ℓ} (p : A → Bool) (xs ys : List A)
    → is_some (first p xs) ≡ true
    → is_some (first p (xs ++ ys)) ≡ true
unfolding first
first-append p [] ys h = cc
first-append p (x ∷ xs) ys h = ground (arith, first-append p xs ys)

first-snoc {ℓ} :
    {A : Type ℓ} (p : A → Bool) (xs : List A) (y : A)
    → p y ≡ true
    → is_some (first p (xs ++ y ∷ [])) ≡ true
unfolding first
first-snoc p [] y h = ground arith
first-snoc p (x ∷ xs) y h = ground (arith, first-snoc p xs y)

-- The gates stay, and a key that is known stays known.
pub record Keeps (db db' : Db) : Type 0 where
  pub gates : db'.gates ≡ db.gates
  pub known : (k : Text) → knows k db ≡ true → knows k db' ≡ true

-- The event is stored under its key, or the answer is that of an entry that met an open session.
pub record IsStored (gate : Gate) (r : Request) (a : Response) (db db' : Db) : Type 0 where
  pub keeps : Keeps db db'
  pub stored : (knows (event_key gate r) db' ≡ true) ⊎ (a ≡ session_conflict)

Keeps-same : (db : Db) → Keeps db db
Keeps-same db = record { gates = refl; known = λ k h. h }

Adds-Keeps :
    (e : AccessEvent) (ps : List PlateRecognitionEvent) (db db' : Db)
    → Adds e (record db { recognitions = ps }) db'
    → Keeps db db'
unfolding find_event
Adds-Keeps e ps db db' a = record {
  gates = a.gates;
  known = λ k h.
      subst (λ es. is_some (first (has_key k) es) ≡ true) (sym a.events)
        (first-append (has_key k) db.events (e ∷ []) h);
}

Adds-knows :
    (gate : Gate) (r : Request) (e : AccessEvent) (db db' : Db)
    → e.idempotency_key ≡ event_key gate r
    → Adds e db db'
    → knows (event_key gate r) db' ≡ true
unfolding find_event
Adds-knows gate r e db db' same a =
    subst (λ es. is_some (first (has_key (event_key gate r)) es) ≡ true) (sym a.events)
      (first-snoc (has_key (event_key gate r)) db.events e
        (rw same (text_eq_refl (event_key gate r))))

pub answered_db : {a b : Db} {p q : Response} → answered p a ≡ answered q b → a ≡ b
answered_db h = cc

answered_response : {a b : Db} {p q : Response} → answered p a ≡ answered q b → p ≡ q
answered_response h = cc

module _ (gate : Gate) (r : Request) (a : Response) (db db' : Db) where
  known-IsStored :
      (e : AccessEvent) (p : Response)
      → find_event db (event_key gate r) ≡ some e
      → answered p db ≡ answered a db'
      → IsStored gate r a db db'
  known-IsStored e p found h =
      subst (IsStored gate r a db) (answered_db h)
        (record { keeps = Keeps-same db; stored = inl (ap is_some found) })

  conflict-IsStored :
      (x : Reading) → after_conflict db gate r x ≡ answered a db' → IsStored gate r a db db'
  unfolding after_conflict
  conflict-IsStored x h = by_key (find_event db (event_key gate r)) refl h
    where
      by_key :
          (o : Option AccessEvent)
          → find_event db (event_key gate r) ≡ o
          → elim o [
            | some e ↦ answered (duplicate_response e (Warning.concurrent_conflict ∷ [])) db
            | none ↦
                if is_entry r.direction && has_open x.normalized db
                then answered session_conflict db
                else integrity_error
          ]
            ≡ answered a db'
          → IsStored gate r a db db'
      by_key (some e) found k = known-IsStored e _ found k
      by_key none found k = elim (Bool-cases (is_entry r.direction && has_open x.normalized db)) [
        | inl open_one ↦
            let same = simp open_one at k in
            subst (IsStored gate r a db) (answered_db same)
              (record { keeps = Keeps-same db; stored = inr (sym (answered_response same)) })
        | inr other ↦ cc (simp other at k)
      ]

  run-IsStored :
      (cfg : Config) (seen : Db)
      → r.dry_run ≡ false
      → run_event cfg seen db gate r ≡ answered a db'
      → IsStored gate r a db db'
  unfolding run_event
  run-IsStored cfg seen wet h =
      let x = read_event cfg seen r in
      let v = decide cfg seen gate r x in
      let ps = db.recognitions ++ recognition gate r x ∷ [] in
      elim (Bool-cases (any (same_source r) db.recognitions)) [
        | inl twice ↦ cc (simp (wet, twice) at h)
        | inr once ↦
            committed x ps (commit gate r x v (record db { recognitions = ps })) refl
              (simp (wet, once) at h)
      ]
    where
      committed :
          (x : Reading) (ps : List PlateRecognitionEvent) (c : Committed)
          → commit gate r x (decide cfg seen gate r x) (record db { recognitions = ps }) ≡ c
          → elim c [
            | written d ↦ answered (verdict_response db gate r x (decide cfg seen gate r x)) d
            | conflict ↦ after_conflict db gate r x
          ]
            ≡ answered a db'
          → IsStored gate r a db db'
      committed x ps conflict e k = conflict-IsStored x k
      committed x ps (written d) e k =
          let v = decide cfg seen gate r x in
          let adds = commit-Adds gate r x v (record db { recognitions = ps }) d e in
          subst (IsStored gate r a db) (answered_db k) (record {
            keeps = Adds-Keeps (new_event gate r x v) ps db d adds;
            stored = inl (
                Adds-knows gate r (new_event gate r x v) (record db { recognitions = ps }) d
                  (event_key_lem gate r x v) adds);
          })

pub no_gate :
    (cfg : Config) (db now : Db) (r : Request)
    → first (has_code r.gate_code) db.gates ≡ none
    → process_plate_event cfg db now r ≡ gate_not_found
unfolding process_plate_event
no_gate cfg db now r h = ground arith

-- A call that is not a trial, and is answered, has its event stored under its key in the end, unless
-- the answer is that of an entry that met an open session; and it forgets no event.
pub process-IsStored :
    (cfg : Config) (db db' : Db) (r : Request) (gate : Gate) {a : Response}
    → first (has_code r.gate_code) db.gates ≡ some gate
    → r.dry_run ≡ false
    → process_plate_event cfg db db r ≡ answered a db'
    → IsStored gate r a db db'
unfolding process_plate_event
process-IsStored cfg db db' r gate {a} found wet h =
    by_key (find_event db (event_key gate r)) refl (rw (process_plate_event, found) at h)
  where
    by_key :
        (o : Option AccessEvent)
        → find_event db (event_key gate r) ≡ o
        → elim o [
          | some e ↦ answered (duplicate_response e []) db
          | none ↦ run_event cfg db db gate r
        ]
          ≡ answered a db'
        → IsStored gate r a db db'
    by_key (some e) known k = known-IsStored gate r a db db' e _ known k
    by_key none known k = run-IsStored gate r a db db' cfg db wet k
