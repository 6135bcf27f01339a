-- ===== src/Gate/Decide/Leaving.antt =====
-- The decision on an exit, and the verdict that every decision ends in.
use parking_system.Common.{
  ℕ, ◌+◌, Bool, true, false, not, ◌&&◌, Option, none, some, List, [], ◌∷◌, ◌++◌, ◌==◌, ltb,
  if◌then◌else◌, select, latest, update,
}
use parking_system.Python.{Text}
use parking_system.Model.{
  Decision, AccessPermit, ParkingSession, SessionStatus, PaymentStatus, Charge, PaymentAllocation,
}
use parking_system.Store.{Db, Reason, Warning}
use parking_system.Settings.{ExitPolicy, allow_exit, deny_exit, resolve_exit_policy, resolve_grace}
use parking_system.Rules.Facts.{open_for}
use parking_system.Gate.Request.{Config, Request}
use parking_system.Gate.Exit.{
  Closing, Settlement, session_amounts, close_session_amounts, settle_exit_with_prepaid_credit,
}

-- The rows that the decision changes: the closed session, its charge, the charge that a prepaid
-- credit pays with its allocations, and the permit that is used once more.
pub record Writes : Type 0 where
  pub session : Option ParkingSession
  pub charge : Option Charge
  pub paid_charge : Option Charge
  pub allocations : List PaymentAllocation
  pub permit : Option AccessPermit

abbrev pub no_writes : Writes
no_writes = record {
  session = none;
  charge = none;
  paid_charge = none;
  allocations = [];
  permit = none;
}

pub record Verdict : Type 0 where
  pub decision : Decision
  pub reason : Reason
  pub warnings : List Warning
  pub permit : Option AccessPermit
  pub create_new_session : Bool
  pub writes : Writes

abbrev pub to_list {ℓ} : {A : Type ℓ} → Option A → List A
to_list none = []
to_list (some a) = a ∷ []

-- The columns of a session that its closing sets.
abbrev pub close_columns : ParkingSession → ParkingSession → ParkingSession
close_columns s t = record t {
  exit_at = s.exit_at;
  duration_seconds = s.duration_seconds;
  status = s.status;
  tariff_id = s.tariff_id;
  base_amount = s.base_amount;
  penalty_amount = s.penalty_amount;
  discount_amount = s.discount_amount;
  final_amount = s.final_amount;
  payment_status = s.payment_status;
}

-- The rows that a verdict changes, each found by its identifier, in the columns that are set.
unfoldable pub apply_writes : Writes → Db → Db
apply_writes w db = record db {
  sessions = elim w.session [
    | none ↦ db.sessions
    | some s ↦ update (λ t. t.id == s.id) (close_columns s) db.sessions
  ];
  charges = elim w.paid_charge [
    | none ↦ db.charges ++ to_list w.charge
    | some c ↦
        update (λ d. d.id == c.id)
          (λ d. record d { paid_amount = c.paid_amount; status = c.status })
          (db.charges ++ to_list w.charge)
  ];
  allocations = db.allocations ++ w.allocations;
  permits = elim w.permit [
    | none ↦ db.permits
    | some p ↦
        update (λ q. q.id == p.id) (λ q. record q { used_entries = p.used_entries }) db.permits
  ];
}

-- A verdict that writes nothing.
abbrev pub plain : Decision → Reason → List Warning → Verdict
plain d r ws = record {
  decision = d;
  reason = r;
  warnings = ws;
  permit = none;
  create_new_session = true;
  writes = no_writes;
}

-- Of the plate's open sessions the latest: ORDER BY entry_at DESC.
unfoldable pub open_session : Db → Text → Option ParkingSession
open_session db plate = latest (λ s. s.entry_at) (select (open_for plate) db.sessions)

-- `payment_status` of a closed session, before and after a prepaid credit is settled.
abbrev pub closed_status : ℕ → PaymentStatus
closed_status final_amount = if final_amount == 0 then PaymentStatus.free else PaymentStatus.unpaid

abbrev pub is_unpaid_status : PaymentStatus → Bool
is_unpaid_status PaymentStatus.unpaid = true
is_unpaid_status _ = false

abbrev pub settled_status : Option Settlement → PaymentStatus → PaymentStatus
settled_status none status = status
settled_status (some s) status = if s.settled then PaymentStatus.paid else status

abbrev pub settle_warnings : Option Settlement → List Warning
settle_warnings none = []
settle_warnings (some s) =
    if s.settled
    then Warning.exit_settled_within_grace ∷ []
    else Warning.prepaid_credit_partially_applied ∷ []

abbrev pub is_allow_exit : ExitPolicy → Bool
is_allow_exit allow_exit = true
is_allow_exit _ = false

abbrev pub is_deny_exit : ExitPolicy → Bool
is_deny_exit deny_exit = true
is_deny_exit _ = false

abbrev pub settled_charge : Option Settlement → Option Charge
settled_charge none = none
settled_charge (some s) = some s.charge

abbrev pub settled_allocations : Option Settlement → List PaymentAllocation
settled_allocations none = []
settled_allocations (some s) = s.allocations

-- The settlement is tried on an unpaid session only.
unfoldable pub try_settle : Config → Db → Closing → ℕ → Option Settlement
try_settle cfg db c now =
    if c.session.final_amount == 0
    then none
    else settle_exit_with_prepaid_credit db (db.charges ++ to_list c.charge) c.session now
        (resolve_grace cfg.py cfg.env db.app_settings)

unfoldable pub closed_session : ParkingSession → PaymentStatus → ℕ → ParkingSession
closed_session s status now = record s {
  exit_at = some now;
  status = SessionStatus.closed;
  payment_status = status;
}

abbrev pub unpaid_warning : ParkingSession → ExitPolicy → List Warning
unpaid_warning s policy =
    if ltb 0 s.final_amount && is_unpaid_status s.payment_status && not (is_allow_exit policy)
    then Warning.unpaid_exit ∷ []
    else []

-- An exit that is not blocked closes the session.
unfoldable pub close_exit :
    Config → Db → Request → ExitPolicy → ParkingSession → List Warning → Verdict
unfolding closed_session
close_exit cfg db r policy s ws =
    let closing = close_session_amounts cfg db s r.now_closing (r.fresh + 1) in
    let settlement = try_settle cfg db closing r.now in
    let status = settled_status settlement (closed_status closing.session.final_amount) in
    let row = closed_session closing.session status r.now in
    record {
      decision = Decision.allow;
      reason = Reason.exit_session_closed;
      warnings =
          ws ++ (closing.warnings ++ (settle_warnings settlement ++ unpaid_warning row policy));
      permit = none;
      create_new_session = true;
      writes = record {
        session = some row;
        charge = closing.charge;
        paid_charge = settled_charge settlement;
        allocations = settled_allocations settlement;
        permit = none;
      };
    }

unfoldable pub decide_exit : Config → Db → Request → Text → List Warning → Verdict
decide_exit cfg db r plate ws =
    let policy = resolve_exit_policy cfg.py cfg.env db.app_settings in
    elim (open_session db plate) [
      | none ↦
          plain Decision.allow_with_warning Reason.no_open_session_for_exit
            (ws ++ Warning.no_open_session_for_exit ∷ [])
      | some s ↦
          if is_deny_exit policy && ltb 0 (session_amounts cfg db s r.now).final
          then plain Decision.deny Reason.exit_unpaid_blocked
              (ws ++ Warning.unpaid_exit_blocked_by_policy ∷ [])
          else close_exit cfg db r policy s ws
    ]
