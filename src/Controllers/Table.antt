-- ===== src/Controllers/Table.antt =====
-- controllers/table_controller.go: a Reconcile without logic.
use streaming_runtime_go.Prelude.{Outcome, ok}
use streaming_runtime_go.Api.{NamespacedName}
use streaming_runtime_go.Controllers.Client.{Session, Reconciled, finished}

-- Reconcile
unfoldable pub reconcile_table :
    {W : Type 0} → NamespacedName → Session W → Outcome Reconciled × Session W
reconcile_table req s = (ok finished, s)
