-- ===== src/Gate/Process/Uploads.antt =====
-- An event that a gate decided by itself, when it is uploaded.
use parking_system.Common.{ℕ, ◌≡◌, refl, Bool, true, false, Option, none, some, some_same, arith}
use parking_system.Python.{Text}
use parking_system.Model.{Decision, Direction, Gate}
use parking_system.Store.{Db}
use parking_system.Envelope.{ReviewStatus}
use parking_system.Rules.Safety.{is_offline}
use parking_system.Gate.Request.{Config, Request}
use parking_system.Gate.Decide.{Verdict, Reading, decide, decide_ruled, with_review}
use parking_system.Gate.Decide.Safety.{ruled_online}
use parking_system.Gate.Process.{verdict_response, mismatch}
use parking_system.Agent.{Snapshot, offline_decide, offline_direction, offline_entry}

offline_is_offline :
    (snapshot : Option Snapshot) (plate : Option Text) (d : Direction) (inside : Bool) (now : ℕ)
    → is_offline (offline_decide snapshot plate d inside now).decision ≡ true
unfolding offline_decide offline_direction offline_entry
offline_is_offline none plate d inside now = refl
offline_is_offline (some s) none d inside now = refl
offline_is_offline (some s) (some plate) d inside now = ground arith

review_online :
    (s : ReviewStatus) (v : Verdict)
    → is_offline v.decision ≡ false
    → is_offline (with_review s v).decision ≡ false
unfolding with_review
review_online s v h = ground arith

offline_differs :
    (o : Option Decision) (c d : Decision)
    → o ≡ some c
    → is_offline c ≡ true
    → is_offline d ≡ false
    → mismatch o d ≡ true
unfolding mismatch
offline_differs none c d same hc hd = cc
offline_differs (some e) c d same hc hd = ground (arith, some_same same)

-- Every event that a gate decided by itself is answered with `needs_review` when the centre decides on
-- it, also where both let the vehicle pass: the centre never decides OFFLINE_ALLOW.
pub upload_needs_review :
    (cfg : Config) (db : Db) (gate : Gate) (r : Request) (x : Reading) (snapshot : Option Snapshot)
    (plate : Option Text) (d : Direction) (inside : Bool) (now : ℕ)
    → r.client_decision ≡ some (offline_decide snapshot plate d inside now).decision
    → (verdict_response db gate r x (decide cfg db gate r x)).needs_review ≡ true
unfolding verdict_response decide
upload_needs_review cfg db gate r x snapshot plate d inside now h =
    offline_differs r.client_decision (offline_decide snapshot plate d inside now).decision
      (with_review x.review_status (decide_ruled cfg db gate r x)).decision h
      (offline_is_offline snapshot plate d inside now)
      (review_online x.review_status (decide_ruled cfg db gate r x) (ruled_online cfg db gate r x))
