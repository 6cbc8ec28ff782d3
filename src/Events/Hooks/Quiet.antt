-- ===== src/Events/Hooks/Quiet.antt =====
-- The hook of a changed peer relation during a restore: `_restore_event_dispatch` of
-- src/events/backup.py, and then `_on_cluster_relation_changed` of src/charm.py.
use zookeeper_k8s_operator.Models
use zookeeper_k8s_operator.Charm.{Charm}
