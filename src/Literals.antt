-- ===== src/Literals.antt =====
-- Constants, statuses and enumerations: src/literals.py and src/core/stubs.py.
use zookeeper_k8s_operator.Base.{
  ℕ, String, ◌≡◌, refl, Bool, true, false, List, [], ◌∷◌, Option, none, some, str_eq, if◌then◌else◌,
}

pub data Substrate : Type 0 where
  vm k8s : Substrate

abbrev pub client_port : ℕ
client_port = 2181

abbrev pub secure_client_port : ℕ
secure_client_port = 2182

abbrev pub server_port : ℕ
server_port = 2888

abbrev pub election_port : ℕ
election_port = 3888

abbrev pub charm_users : List String
charm_users = "super" ∷ "sync" ∷ []

abbrev pub secrets_app : List String
secrets_app = "sync-password" ∷ "super-password" ∷ []

-- The members of the `Status` enumeration.
pub data Status : Type 0 where
  active no_peer_relation service_not_installed service_not_running : Status
  container_not_connected no_passwords not_unit_turn not_all_ip no_cert : Status
  not_all_related stale_quorum not_all_added not_all_quorum switching_encryption : Status
  all_unified service_unhealthy missing_s3_config bucket_not_created : Status
  ongoing_restore service_unavailable : Status

pub data StatusBase : Type 0 where
  active_status blocked_status maintenance_status waiting_status : StatusBase

-- `Status.X.value.status`, without its message
unfoldable pub status_base : Status → StatusBase
status_base active = active_status
status_base service_not_installed = blocked_status
status_base service_not_running = blocked_status
status_base service_unhealthy = blocked_status
status_base missing_s3_config = blocked_status
status_base bucket_not_created = blocked_status
status_base no_passwords = waiting_status
status_base not_unit_turn = waiting_status
status_base no_cert = waiting_status
status_base _ = maintenance_status

-- isinstance(status, ActiveStatus)
abbrev pub is_active : StatusBase → Bool
is_active active_status = true
is_active _ = false

-- `bool(status)`: a member of an `Enum` that defines no `__bool__` is true.
unfoldable pub status_truthy : Status → Bool
status_truthy s = true

pub data ExposeExternal : Type 0 where
  disabled nodeport loadbalancer : ExposeExternal

pub data LogLevel : Type 0 where
  info warning error debug : LogLevel

pub data RestoreStep : Type 0 where
  not_started stop_workflow restore restart clean : RestoreStep

-- `step.value`
unfoldable pub step_value : RestoreStep → String
step_value not_started = ""
step_value stop_workflow = "stop"
step_value restore = "restore"
step_value restart = "restart"
step_value clean = "clean"

-- `RestoreStep(value)`, a ValueError for any other text
unfoldable pub step_of_value : String → Option RestoreStep
step_of_value s =
    if str_eq s ""
    then some not_started
    else if str_eq s "stop"
    then some stop_workflow
    else if str_eq s "restore"
    then some restore
    else if str_eq s "restart"
    then some restart
    else if str_eq s "clean"
    then some clean
    else none

unfoldable pub next_step : RestoreStep → RestoreStep
next_step not_started = stop_workflow
next_step stop_workflow = restore
next_step restore = restart
next_step restart = clean
next_step clean = not_started

-- `a is b` for two steps
abbrev pub step_eq : RestoreStep → RestoreStep → Bool
step_eq not_started not_started = true
step_eq stop_workflow stop_workflow = true
step_eq restore restore = true
step_eq restart restart = true
step_eq clean clean = true
step_eq _ _ = false

-- A step read back from the databag is the step that was written.
pub step_of_value-step_value : (s : RestoreStep) → step_of_value (step_value s) ≡ some s
unfolding step_of_value step_value
step_of_value-step_value not_started = refl
step_of_value-step_value stop_workflow = refl
step_of_value-step_value restore = refl
step_of_value-step_value restart = refl
step_of_value-step_value clean = refl
