-- ===== src/Lib.antt =====
-- The parking system of a residential complex: gates that read plates and decide on vehicles, the
-- money of their stays, violations, and a program at each gate that decides by itself while the
-- centre is away. The model is of the Python code in backend/app and gate-agent/agent.
--
-- The parts, and the files that model them:
--
-- - Python: what the code uses of Python's text functions (str.strip, str.upper, re's \s and \d, int
--   on a text). They are tables of the interpreter, so they are a record, with their documented
--   behaviour on ASCII as laws.
-- - Model, Store: the enumerations of backend/app/shared/enums.py and the rows of the modules'
--   models.py, and the database as a record of tables. Identifiers are numbers, drawn by the caller;
--   texts are lists of code points; instants count microseconds.
-- - Plate: backend/app/shared/plate.py, normalize_plate and is_valid_iranian_plate. The regular
--   expressions are functions on texts; Plate/Letters holds the two tables of letters, and Plate/Remap
--   is remap_normalized_plate.
-- - Finance: backend/app/modules/finance/service.py. Finance/Night is night_overlap_seconds,
--   Finance/Tariff is calculate_amounts, get_active_tariff and the endpoint activate_tariff,
--   Finance/Charges is charge_outstanding, allocate_payment_amounts, self_approval_decision and
--   summarize_charges_for_report.
-- - Vehicles: backend/app/modules/vehicles/service.py: find_active_permit with its three tests,
--   has_active_restriction, get_by_plate.
-- - Settings: backend/app/core/runtime_settings.py: get_policy_setting and the resolvers.
-- - Capacity: backend/app/capacity.py. Envelope: backend/app/modules/plate_ocr/envelope.py.
-- - Rules: backend/app/rules_engine.py: Rules/Conditions is _match_condition, Rules/Facts
--   build_context, and Rules the actions and apply_rules_for_event.
-- - Gate: process_plate_event of backend/app/modules/access_control/service.py. Gate/Request has its
--   arguments, Gate/Exit close_session_amounts and settle_exit_with_prepaid_credit, Gate/Decide the
--   decision (Gate/Decide/Leaving on an exit), Gate/Commit the transaction, Gate/Process the whole
--   call with its answers.
-- - Violations: backend/app/modules/violations: service.py and the endpoints of router.py that create,
--   confirm and cancel violations, and file and review appeals. Violations/Rows has the rows and the
--   voiding of charges, Violations/Create the registration.
-- - Payments: create_payment and approve_adjustment of backend/app/modules/finance/router.py.
-- - Agent: gate-agent/agent: handler.py, database.py, sync.py; Agent/Snapshots is decision.py and
--   Agent/Plates shared_plate.py, with a table of letters and an expression of its own.
-- - GateApi: the endpoints of backend/app/modules/access_control/router.py around the gate's call: the
--   detected plate, the check and the upload of offline events (sync_offline). GateApi/Manual is
--   access_manual, barrier_open and heartbeat, GateApi/Snapshots offline_snapshot, GateApi/Reviews
--   resolve_plate_review, and GateApi/Upload joins sync_offline with the agent's upload_pending.
-- - VehicleSync: backend/app/modules/vehicle_sync: VehicleSync/Dates is parse_any_date and
--   _jalali_to_gregorian, VehicleSync/Cells the mapping and the validation of the sheet's rows,
--   VehicleSync/Create, VehicleSync/Change and VehicleSync/Permits the parts of _upsert_vehicle,
--   VehicleSync/Upsert the whole of it, and VehicleSync/Run the run and resolve_conflict of router.py.
-- - Parking: backend/app/modules/parking/router.py: spaces, assignments, occupancies and coordinates;
--   Parking/YardSpaces is create_yard_spaces and delete_yard_space.
-- - Common: Boolean tests, queries on tables (select, first, latest, update, sort_desc), signed
--   numbers, and their lemmas.
-- - Tests: a small parking lot, and each theorem at concrete inputs.
--
-- How they interact: the gate's call reads the plate, the capture and the vehicle (Gate.Decide.Reading),
-- decides by permit, restriction, session, tariff and capacity, lets the rules override the decision
-- and the review lock have the last word, and writes a verdict's rows in one transaction. The rules
-- read the database with the changes of the decision in it (an exit's session is closed by then), as
-- SQLAlchemy flushes them before a query; a row that is changed is written column by column. The decision
-- is a function of the database that was read and the transaction of the database that it finds, so
-- that a call may decide on rows that another call has changed since; Reach has such calls in any
-- order. The unique constraints of the tables end a transaction in a conflict. A payment and the
-- registration of a violation are split in the same way; the other requests on violations run in one
-- go. A gate and the centre meet twice: the snapshot that offline_snapshot makes is what the agent's
-- offline_decide reads, and what the agent queues is what sync_offline decides once more.
-- The assignments of Parking are what find_assigned_space of the gate's transaction reads.
--
-- Bounds and fuel: the loop of night_overlap_seconds runs on its own bound, night_max_days (3660
-- days); every other loop is structural on a list. Amounts are numbers without a bound, as in Python.
-- Where the source computes a cost in floating point, the model has an exact fraction over 3600,
-- rounded as round does; readings of the envelope and confidences are whole
-- thousandths, and a fraction among the stored settings is the number that int makes of it. A row of the
-- sheet may draw four identifiers, so that row n takes those from `fresh + 4 * n` on. The conversion of
-- dates counts in numbers without a sign: no intermediate of the source is negative there.
--
-- Not modelled: pages, cameras, image recognition, the simulator, authentication, master data, reports
-- and notifications; the reading of plates from the messages of foreign cameras (_handle_anpr) and the
-- map of spaces, which only rearranges rows; fields of answers that only repeat rows, the audit log, broadcasts, and handlers
-- of unforeseen exceptions. Of the database, what is rolled back is an operation that returns none;
-- locks are not modelled.
pub mod Agent
pub mod Capacity
pub mod Common
pub mod Envelope
pub mod Finance
pub mod Gate
pub mod GateApi
pub mod Model
pub mod Parking
pub mod Payments
pub mod Plate
pub mod Python
pub mod Rules
pub mod Settings
pub mod Store
pub mod Tests
pub mod VehicleSync
pub mod Vehicles
pub mod Violations
