-- ===== src/Gate/Process/Recorded.antt =====
-- The event that a call leaves behind its answer, and that no later call takes away.
use parking_system.Common.{
  ◌≡◌, ◌⊎◌, refl, sym, ap, subst, Bool, true, false, ◌&&◌, Option, none, some, List, [], ◌∷◌, ◌++◌,
  arith, inl, inr, Bool-cases, is_some, first, any, if◌then◌else◌, text_eq_refl,
}
use parking_system.Python.{Text}
use parking_system.Model.{Gate}
use parking_system.Store.{Db, AccessEvent, PlateRecognitionEvent, Warning}
use parking_system.Gate.Request.{Config, Request, event_key}
use parking_system.Gate.Decide.{Reading, Verdict, read_event, decide}
use parking_system.Gate.Commit.{
  Committed, written, conflict, commit, new_event, find_event, has_key, recognition, same_source,
}
use parking_system.Gate.Commit.Events.{Adds, commit-Adds}
use parking_system.Gate.Process.{
  Response, answered, integrity_error, duplicate_response, session_conflict, run_event,
  after_conflict, verdict_response, has_open, is_entry,
}

first-append_some {ℓ} :
    {A : Type ℓ} (p : A → Bool) (xs ys : List A) (e : A)
    → first p xs ≡ some e
    → first p (xs ++ ys) ≡ some e
unfolding first
first-append_some p [] ys e h = cc
first-append_some p (x ∷ xs) ys e h = ground (arith, first-append_some p xs ys e)

first-append_new {ℓ} :
    {A : Type ℓ} (p : A → Bool) (xs : List A) (y : A)
    → p y ≡ true
    → is_some (first p xs) ≡ false
    → first p (xs ++ y ∷ []) ≡ some y
unfolding first
first-append_new p [] y h k = ground arith
first-append_new p (x ∷ xs) y h k = ground (arith, first-append_new p xs y)

-- The gates stay, and what is found for a key is found again.
pub record Remembers (db db' : Db) : Type 0 where
  pub gates : db'.gates ≡ db.gates
  pub found : (k : Text) (e : AccessEvent) → find_event db k ≡ some e → find_event db' k ≡ some e

-- The event that stands behind an answer.
pub record StandsBehind (gate : Gate) (r : Request) (a : Response) (db' : Db) : Type 0 where
  pub event : AccessEvent
  pub found : find_event db' (event_key gate r) ≡ some event
  pub id : some event.id ≡ a.access_event_id
  pub decision : event.decision ≡ a.decision
  pub reason : event.decision_reason ≡ a.decision_reason

-- What a call that is answered leaves: nothing is forgotten, and where it is no trial, the event that
-- stands behind the answer, unless an entry met an open session.
pub record IsRecorded (gate : Gate) (r : Request) (a : Response) (db db' : Db) : Type 0 where
  pub keeps : Remembers db db'
  pub stored : r.dry_run ≡ false → StandsBehind gate r a db' ⊎ (a ≡ session_conflict)

pub Remembers-same : (db : Db) → Remembers db db
Remembers-same db = record { gates = refl; found = λ k e h. h }

same_db : {a b : Db} {p q : Response} → answered p a ≡ answered q b → a ≡ b
same_db h = cc

same_response : {a b : Db} {p q : Response} → answered p a ≡ answered q b → p ≡ q
same_response h = cc

pub Remembers-answered : {a b : Db} {p q : Response} → answered p a ≡ answered q b → Remembers a b
Remembers-answered {a} h = subst (Remembers a) (same_db h) (Remembers-same a)

Adds-Remembers :
    (e : AccessEvent) (ps : List PlateRecognitionEvent) (db db' : Db)
    → Adds e (record db { recognitions = ps }) db'
    → Remembers db db'
unfolding find_event
Adds-Remembers e ps db db' a = record {
  gates = a.gates;
  found = λ k x h.
      subst (λ es. first (has_key k) es ≡ some x) (sym a.events)
        (first-append_some (has_key k) db.events (e ∷ []) x h);
}

written_fresh :
    (gate : Gate) (r : Request) (x : Reading) (v : Verdict) (db db' : Db)
    → commit gate r x v db ≡ written db'
    → is_some (find_event db (event_key gate r)) ≡ false
unfolding commit
written_fresh gate r x v db db' h = elim (Bool-cases (is_some (find_event db (event_key gate r)))) [
  | inl known ↦ cc (simp known at h)
  | inr fresh ↦ fresh
]

module _ (gate : Gate) (r : Request) (a : Response) (db db' : Db) where
  pub known-IsRecorded :
      (e : AccessEvent) (ws : List Warning)
      → find_event db (event_key gate r) ≡ some e
      → answered (duplicate_response e ws) db ≡ answered a db'
      → IsRecorded gate r a db db'
  unfolding duplicate_response
  known-IsRecorded e ws found h = record {
    keeps = Remembers-answered h;
    stored = λ wet. inl (record {
      event = e;
      found = subst (λ d. find_event d (event_key gate r) ≡ some e) (same_db h) found;
      id = ap (λ p. p.access_event_id) (same_response h);
      decision = ap (λ p. p.decision) (same_response h);
      reason = ap (λ p. p.decision_reason) (same_response h);
    });
  }

  conflict-IsRecorded :
      (x : Reading) → after_conflict db gate r x ≡ answered a db' → IsRecorded gate r a db db'
  unfolding after_conflict
  conflict-IsRecorded x h = by_key (find_event db (event_key gate r)) refl h
    where
      by_key :
          (o : Option AccessEvent)
          → find_event db (event_key gate r) ≡ o
          → elim o [
            | some e ↦ answered (duplicate_response e (Warning.concurrent_conflict ∷ [])) db
            | none ↦
                if is_entry r.direction && has_open x.normalized db
                then answered session_conflict db
                else integrity_error
          ]
            ≡ answered a db'
          → IsRecorded gate r a db db'
      by_key (some e) found k = known-IsRecorded e _ found k
      by_key none found k = elim (Bool-cases (is_entry r.direction && has_open x.normalized db)) [
        | inl open_one ↦
            let same = simp open_one at k in
            record {
              keeps = Remembers-answered same;
              stored = λ wet. inr (sym (same_response same));
            }
        | inr other ↦ cc (simp other at k)
      ]

  written-IsRecorded :
      (x : Reading) (v : Verdict) (ps : List PlateRecognitionEvent)
      → commit gate r x v (record db { recognitions = ps }) ≡ written db'
      → r.dry_run ≡ false
      → verdict_response db gate r x v ≡ a
      → IsRecorded gate r a db db'
  unfolding verdict_response new_event find_event
  written-IsRecorded x v ps e wet same =
      let adds = commit-Adds gate r x v (record db { recognitions = ps }) db' e in
      record {
        keeps = Adds-Remembers (new_event gate r x v) ps db db' adds;
        stored = λ _. inl (record {
          event = new_event gate r x v;
          found =
              subst (λ es. first (has_key (event_key gate r)) es ≡ some (new_event gate r x v))
                (sym adds.events)
                (first-append_new (has_key (event_key gate r)) db.events (new_event gate r x v)
                  (text_eq_refl (event_key gate r))
                  (written_fresh gate r x v (record db { recognitions = ps }) db' e));
          id = rw (sym same, wet) refl;
          decision = ap (λ p. p.decision) same;
          reason = ap (λ p. p.decision_reason) same;
        });
      }

  pub run-IsRecorded :
      (cfg : Config) (seen : Db)
      → run_event cfg seen db gate r ≡ answered a db'
      → IsRecorded gate r a db db'
  unfolding run_event
  run-IsRecorded cfg seen h =
      let x = read_event cfg seen r in
      let v = decide cfg seen gate r x in
      let ps = db.recognitions ++ recognition gate r x ∷ [] in
      elim (Bool-cases r.dry_run) [
        | inl dry ↦ record { keeps = Remembers-answered (simp dry at h); stored = λ wet. cc }
        | inr wet ↦ elim (Bool-cases (any (same_source r) db.recognitions)) [
          | inl twice ↦ cc (simp (wet, twice) at h)
          | inr once ↦
              committed x v ps wet (commit gate r x v (record db { recognitions = ps })) refl
                (simp (wet, once) at h)
        ]
      ]
    where
      committed :
          (x : Reading) (v : Verdict) (ps : List PlateRecognitionEvent)
          → r.dry_run ≡ false
          → (c : Committed) → commit gate r x v (record db { recognitions = ps }) ≡ c
          → elim c [
            | written d ↦ answered (verdict_response db gate r x v) d
            | conflict ↦ after_conflict db gate r x
          ]
            ≡ answered a db'
          → IsRecorded gate r a db db'
      committed x v ps wet conflict e k = conflict-IsRecorded x k
      committed x v ps wet (written d) e k =
          written-IsRecorded x v ps
            (subst (λ t. commit gate r x v (record db { recognitions = ps }) ≡ written t)
              (same_db k) e)
            wet (same_response k)
