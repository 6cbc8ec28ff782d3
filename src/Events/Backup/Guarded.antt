-- ===== src/Events/Backup/Guarded.antt =====
-- The backup actions that fail unless their preconditions hold: src/events/backup.py.
use zookeeper_k8s_operator.Base.{String, Bool, Option, none, some}
use zookeeper_k8s_operator.Charm.Monad.{M}
use zookeeper_k8s_operator.Charm.Monad.Fields.{KeepsFields, fields_rules}
use zookeeper_k8s_operator.Events.Backup.{guarded, fail_action}

pub guarded-KeepsFields :
    {kept : String → Bool} (failure : Option String) (body : M (Unit {0}))
    → KeepsFields kept body
    → KeepsFields kept (guarded failure body)
unfolding guarded fail_action
guarded-KeepsFields none body k = k
guarded-KeepsFields (some msg) body k = search fields_rules
