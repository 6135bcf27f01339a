-- ===== src/Gate/Decide/Locked.antt =====
-- What the rules and the review lock leave of the rows to be written.
use parking_system.Common.{◌≡◌, refl, arith, map}
use parking_system.Model.{Gate}
use parking_system.Store.{Db, Warning}
use parking_system.Envelope.{ReviewStatus}
use parking_system.Rules.{Overrides}
use parking_system.Gate.Request.{Config, Request, barrier_action_for, keep_closed}
use parking_system.Gate.Decide.{
  Verdict, Reading, decide, decide_ruled, decide_base, with_review, with_overrides,
}
use parking_system.Gate.Decide.Safety.{review_keeps_closed}

pub writes-with_overrides : (o : Overrides) (v : Verdict) → (with_overrides o v).writes ≡ v.writes
unfolding with_overrides
writes-with_overrides o v = ground arith

pub writes-with_review : (s : ReviewStatus) (v : Verdict) → (with_review s v).writes ≡ v.writes
unfolding with_review
writes-with_review s v = ground arith

-- A reading that needs a review keeps the barrier closed, while the rows that its verdict writes are
-- those of the decision before the rules and the lock.
pub lock_keeps_writes :
    (cfg : Config) (db : Db) (gate : Gate) (r : Request) (x : Reading)
    → x.review_status ≡ ReviewStatus.needs_review
    → (barrier_action_for (decide cfg db gate r x).decision ≡ keep_closed)
      × ((decide cfg db gate r x).writes
          ≡ (decide_base cfg db gate r x.normalized x.vehicle
              (map Warning.envelope x.capture.violations)).writes)
unfolding decide decide_ruled
lock_keeps_writes cfg db gate r x h = (review_keeps_closed cfg db gate r x h, kept)
  where
    kept :
        (decide cfg db gate r x).writes
        ≡ (decide_base cfg db gate r x.normalized x.vehicle
            (map Warning.envelope x.capture.violations)).writes
    kept = rw (writes-with_review, writes-with_overrides) refl
