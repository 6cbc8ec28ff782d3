-- ===== src/Events/Provider.antt =====
-- src/events/provider.py
pub mod Keeps
use zookeeper_k8s_operator.Base.{
  String, Bool, true, false, not, ◌||◌, List, [], ◌∷◌, if◌then◌else◌, Error, raised,
  members_syncing, member_not_ready, quorum_leader_not_found, kazoo_timeout,
}
use zookeeper_k8s_operator.Base.{ℕ}
use zookeeper_k8s_operator.Text.{truthy}
use zookeeper_k8s_operator.Literals.{status_truthy}
use zookeeper_k8s_operator.Models
use zookeeper_k8s_operator.Models.Client.{ZkClient, database, username, relation_user}
use zookeeper_k8s_operator.State.{ClusterState, cluster}
use zookeeper_k8s_operator.State.Endpoints.{clients}
use zookeeper_k8s_operator.State.Health.{stable}
use zookeeper_k8s_operator.Quorum.Acls.{is_broken, update_acls}
use zookeeper_k8s_operator.Charm.{Observed, deferred}
use zookeeper_k8s_operator.Charm.Monad.{
  M, ◌>>=◌, ◌>>◌, pure, done, gets, act, lift, attempt, update_app,
}

-- the exceptions at which the event is deferred
unfoldable pub is_retryable : Error → Bool
is_retryable members_syncing = true
is_retryable member_not_ready = true
is_retryable quorum_leader_not_found = true
is_retryable kazoo_timeout = true
is_retryable _ = false

-- `self.charm.app.planned_units == 0`: a bound method, which is no number
unfoldable pub planned_units_is_zero : ClusterState → Bool
planned_units_is_zero s = false

password_or : String → String → String
unfolding truthy
password_or password fresh = if truthy password then password else fresh

module _ (o : Observed) where
  -- one round of the loop
  unfoldable pub set_password : ZkClient → M (Unit {0})
  unfolding update_app is_broken username database truthy password_or
  set_password client =
      if not (truthy (database client))
      then done
      else if is_broken o.event.broken_relation client
      then done
      else update_app
          ((username client, password_or client.password (o.fresh_password (username client))) ∷ [])

  set_passwords : List ZkClient → M (Unit {0})
  unfolding set_password
  set_passwords [] = done
  set_passwords (client ∷ rest) = set_password client >> set_passwords rest

  -- true where the access rights were updated, false where the event is to be deferred
  try_acls : M Bool
  unfolding is_retryable
  try_acls =
      attempt (update_acls o o.event.broken_relation >> pure true)
        (λ e. if is_retryable e then pure false else lift (raised e))

  unfoldable pub on_client_relation_updated : M (Unit {0})
  unfolding set_passwords try_acls status_truthy
  on_client_relation_updated = do
    state ← gets (λ c. c.state)
    if not o.is_leader || Models.App.is_restore_in_progress (cluster state)
        then done
        else if not (status_truthy (stable state))
        then act deferred
        else do
          updated ← try_acls
          if not updated
              then act deferred
              else do all_clients ← gets (λ c. clients c.state); set_passwords all_clients

  -- the event breaks the relation with this identifier
  unfoldable pub on_client_relation_broken : ℕ → M (Unit {0})
  unfolding on_client_relation_updated planned_units_is_zero update_app relation_user
  on_client_relation_broken id = do
    state ← gets (λ c. c.state)
    if planned_units_is_zero state || not o.is_leader
        then done
        else do update_app ((relation_user id, "") ∷ []); on_client_relation_updated
