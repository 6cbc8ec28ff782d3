-- ===== src/Events/Upgrade.antt =====
-- src/events/upgrade.py
pub mod Check
pub mod Keeps
mod Tests
use zookeeper_k8s_operator.Base.{
  ℕ, zero, suc, ◌-◌, String, Bool, not, ◌||◌, Option, none, some, List, [], ◌∷◌, str_eq, length,
  if◌then◌else◌, Error, Outcome, raised, cluster_not_ready, kubernetes_client_error, model_error,
}
use zookeeper_k8s_operator.Models
use zookeeper_k8s_operator.Models.Server.{certificate}
use zookeeper_k8s_operator.State.{unit_server, servers}
use zookeeper_k8s_operator.Quorum.{is_syncing}
use zookeeper_k8s_operator.Charm.{Observed, set_partition, upgrade_completed, upgrade_failed}
use zookeeper_k8s_operator.Charm.Monad.{M, ◌>>=◌, ◌>>◌, done, gets, act, lift, attempt, update_unit}
use zookeeper_k8s_operator.Charm.Startup.{init_server}
use zookeeper_k8s_operator.Tls.{own_server}

is_empty : List String → Bool
is_empty [] = Bool.true
is_empty (x ∷ xs) = Bool.false

-- A certificate and its chain, as the provider's databag lists them.
pub record ProvidedCertificate : Type 0 where
  pub provided : String
  pub provided_chain : List String

module _ (o : Observed) where
  -- any ApiError is raised as a KubernetesClientError; `n` is the attempt
  unfoldable pub set_rolling_update_partition : ℕ → ℕ → M (Unit {0})
  set_rolling_update_partition n partition =
      if o.patch_accepted n partition
      then act (set_partition partition)
      else lift (raised kubernetes_client_error)

  -- `n` is the attempt; with no server left Python's partition would be -1
  unfoldable pub pre_upgrade_check : ℕ → M (Unit {0})
  unfolding servers set_rolling_update_partition
  pre_upgrade_check n = do
    state ← gets (λ c. c.state)
    if o.idle then set_rolling_update_partition n (length (servers state) - 1) else done
    if (is_syncing (o.zk_at n) state).passed then done else lift (raised cluster_not_ready)

  checked_once : ℕ → M (Unit {0})
  unfolding pre_upgrade_check
  checked_once n =
      pre_upgrade_check n
      >> (lift (o.healthy_at n) >>= λ healthy.
          if healthy then done else lift (raised cluster_not_ready))

  -- `tries` further attempts are left; the last attempt's exception is raised
  check_from : ℕ → ℕ → M (Unit {0})
  unfolding checked_once
  check_from zero n = checked_once n
  check_from (suc tries) n =
      let again = check_from tries (suc n) in attempt (checked_once n) (λ e. again)

  unfoldable pub post_upgrade_check : M (Unit {0})
  unfolding check_from
  post_upgrade_check = check_from 4 0

  save_entry : ProvidedCertificate → M (Unit {0})
  unfolding update_unit
  save_entry entry = do
    server ← gets own_server
    if str_eq entry.provided (certificate server)
        then update_unit (("chain", o.dumps entry.provided_chain) ∷ [])
        else done

  save_chain : List ProvidedCertificate → M (Unit {0})
  unfolding save_entry
  save_chain [] = done
  save_chain (entry ∷ rest) = save_entry entry >> save_chain rest

  -- `none` where there is no relation to a certificates provider
  unfoldable pub apply_backwards_compatibility_fixes :
      Option (List ProvidedCertificate) → M (Unit {0})
  unfolding save_chain is_empty
  apply_backwards_compatibility_fixes none = done
  apply_backwards_compatibility_fixes (some entries) = do
    server ← gets own_server
    if is_empty (Models.Bundle.chain o.loads server) then save_chain entries else done

  is_cluster_not_ready : Error → M Bool
  is_cluster_not_ready cluster_not_ready = λ c. (Outcome.ok Bool.false, c)
  is_cluster_not_ready e = lift (raised e)

  is_model_error : Error → M Bool
  is_model_error model_error = λ c. (Outcome.ok Bool.false, c)
  is_model_error e = lift (raised e)

  unfoldable pub on_pebble_ready_upgrade : Option (List ProvidedCertificate) → M (Unit {0})
  unfolding apply_backwards_compatibility_fixes init_server post_upgrade_check is_cluster_not_ready
      is_model_error
  on_pebble_ready_upgrade entries = do
    started ← gets (λ c. Models.Server.started (unit_server c.state))
    if not started || o.idle then done else do
      apply_backwards_compatibility_fixes entries
      answered ← attempt (lift o.healthy_before) is_model_error
      init_server o
      passed ← attempt (post_upgrade_check >> (λ c. (Outcome.ok Bool.true, c))) is_cluster_not_ready
      if passed then act upgrade_completed else act upgrade_failed
