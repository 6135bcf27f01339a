-- ===== src/GateApi/Upload/NotLost.antt =====
-- No event is lost between the gate and the centre.
use parking_system.Common.{◌≡◌, ◌⊎◌, Bool, true, List, any, ◌==◌}
use parking_system.Python.{Text}
use parking_system.Store.{Db}
use parking_system.Agent.{PendingEvent, LocalDb}
use parking_system.GateApi.{SyncRow}
use parking_system.GateApi.Upload.Arrival.{Arrived}

abbrev pub same_id : PendingEvent → PendingEvent → Bool
same_id p q = q.id == p.id

-- What becomes of a pending event: an event of its identifier still waits, or has arrived.
abbrev pub IsNotLost : Text → LocalDb → Db → List SyncRow → PendingEvent → Type 0
IsNotLost code local centre rows p =
    (any (same_id p) local.pending_events ≡ true)
    ⊎ ((r : PendingEvent) × (same_id p r ≡ true) × Arrived code centre rows r.source_event_id)
