-- ===== src/Gate/Commit/Entry.antt =====
-- What an entry that is let in leaves in the tables.
use parking_system.Common.{
  ◌≤◌, ◌≡◌, subst, true, Option, none, some, [], ◌∷◌, arith, inl, inr, Bool-cases, count,
  count-append, is_some, first, some_same, if◌then◌else◌, text_eq_refl,
}
use parking_system.Python.{Text}
use parking_system.Model.{Gate, Vehicle}
use parking_system.Store.{Db}
use parking_system.Rules.Facts.{open_for}
use parking_system.Gate.Request.{Request, event_key}
use parking_system.Gate.Decide.{apply_writes, Verdict, Reading}
use parking_system.Gate.Commit.{
  written, conflict, commit, commit_entry, enter, new_session, new_event, with_event, opens_session,
  find_event,
}
use parking_system.Gate.Commit.Index.{IsConsistent, ClosesOnly, commit-IsConsistent, written_same}

enter_opens :
    (r : Request) (v : Option Vehicle) (plate : Text) (db : Db)
    → 1 ≤ count (open_for plate) (enter r v plate db).sessions
unfolding enter new_session count
enter_opens r v plate db = ground (
  arith,
  count-append (open_for plate) db.sessions (new_session r v plate ∷ []),
  text_eq_refl plate,
)

commit_entry_opens :
    (r : Request) (x : Reading) (db db' : Db) (plate : Text)
    → x.normalized ≡ some plate
    → commit_entry r x db ≡ written db'
    → 1 ≤ count (open_for plate) db'.sessions
unfolding commit_entry
commit_entry_opens r x db db' plate read h = entry x.normalized read h
  where
    entry :
        (n : Option Text)
        → n ≡ some plate
        → elim n [
          | none ↦ conflict
          | some p ↦
              if is_some (first (open_for p) db.sessions)
              then conflict
              else written (enter r x.vehicle p db)
        ]
          ≡ written db'
        → 1 ≤ count (open_for plate) db'.sessions
    entry none same e = cc
    entry (some p) same e = elim (Bool-cases (is_some (first (open_for p) db.sessions))) [
      | inl taken ↦ cc (rw taken at e)
      | inr free ↦
          subst (λ q. 1 ≤ count (open_for q) db'.sessions) (some_same same)
            (subst (λ d. 1 ≤ count (open_for p) d.sessions) (written_same (rw free at e))
              (enter_opens r x.vehicle p db))
    ]

-- An entry that opens a session and is written leaves its plate with exactly one open session, where the
-- tables were consistent before and the verdict writes no session row that is open.
pub entry_opens_one :
    (gate : Gate) (r : Request) (x : Reading) (v : Verdict) (db db' : Db) (plate : Text)
    → ClosesOnly v.writes.session
    → IsConsistent db
    → opens_session r v ≡ true
    → x.normalized ≡ some plate
    → commit gate r x v db ≡ written db'
    → count (open_for plate) db'.sessions ≡ 1
unfolding commit
entry_opens_one gate r x v db db' plate closes c opening read h =
    elim (Bool-cases (is_some (find_event db (event_key gate r)))) [
      | inl taken ↦ cc (rw taken at h)
      | inr free ↦ omega (
        arith,
        (commit-IsConsistent gate r x v db db' closes c h).opened plate,
        commit_entry_opens r x (with_event (new_event gate r x v) (apply_writes v.writes db)) db'
            plate read (rw (free, opening) at h),
      )
    ]
