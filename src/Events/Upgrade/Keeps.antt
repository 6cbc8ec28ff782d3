-- ===== src/Events/Upgrade/Keeps.antt =====
-- The handler of an upgrade and the fields of a restore: src/events/upgrade.py.
use zookeeper_k8s_operator.Base.{ℕ, zero, suc, ◌≡◌, Option, none, some, List, [], ◌∷◌, Error, arith}
use zookeeper_k8s_operator.Charm.{Charm, Observed}
use zookeeper_k8s_operator.Charm.Monad.Restoring.{
  KeepsRestore, SameFields-same, KeepsFields-then, KeepsFields-done, KeepsFields-update_unit,
  KeepsFields-attempt, fields_rules, KeepsFields-lift,
}
use zookeeper_k8s_operator.Charm.Monad.{attempt, lift}
use zookeeper_k8s_operator.Charm.Startup.Keeps.{init_server-KeepsRestore}
use zookeeper_k8s_operator.Events.Upgrade.{
  ProvidedCertificate, pre_upgrade_check, checked_once, check_from, post_upgrade_check, save_chain,
  save_entry, apply_backwards_compatibility_fixes, is_cluster_not_ready, is_model_error,
  on_pebble_ready_upgrade,
}

module _ (o : Observed) where
  pub pre_upgrade_check-KeepsRestore : (n : ℕ) → KeepsRestore (pre_upgrade_check o n)
  unfolding pre_upgrade_check
  pre_upgrade_check-KeepsRestore n = search fields_rules depth 12

  checked_once-KeepsRestore : (n : ℕ) → KeepsRestore (checked_once o n)
  unfolding checked_once
  checked_once-KeepsRestore n = search (fields_rules, pre_upgrade_check-KeepsRestore)

  check_from-KeepsRestore : (tries n : ℕ) → KeepsRestore (check_from o tries n)
  unfolding check_from
  check_from-KeepsRestore zero n = checked_once-KeepsRestore n
  check_from-KeepsRestore (suc tries) n =
      KeepsFields-attempt (checked_once o n) (λ e. check_from o tries (suc n))
        (checked_once-KeepsRestore n) (λ e. check_from-KeepsRestore tries (suc n))

  post_upgrade_check-KeepsRestore : KeepsRestore (post_upgrade_check o)
  unfolding post_upgrade_check
  post_upgrade_check-KeepsRestore = check_from-KeepsRestore 4 0

  save_entry-KeepsRestore : (entry : ProvidedCertificate) → KeepsRestore (save_entry o entry)
  unfolding save_entry
  save_entry-KeepsRestore entry = search (fields_rules, KeepsFields-update_unit)

  save_chain-KeepsRestore :
      (entries : List ProvidedCertificate) → KeepsRestore (save_chain o entries)
  unfolding save_chain
  save_chain-KeepsRestore [] = KeepsFields-done
  save_chain-KeepsRestore (entry ∷ rest) =
      KeepsFields-then (save_entry o entry) (save_chain o rest) (save_entry-KeepsRestore entry)
        (save_chain-KeepsRestore rest)

  fixes-KeepsRestore :
      (entries : Option (List ProvidedCertificate))
      → KeepsRestore (apply_backwards_compatibility_fixes o entries)
  unfolding apply_backwards_compatibility_fixes
  fixes-KeepsRestore none = KeepsFields-done
  fixes-KeepsRestore (some entries) = search (fields_rules, save_chain-KeepsRestore)

  is_cluster_not_ready-KeepsRestore : (e : Error) → KeepsRestore (is_cluster_not_ready o e)
  is_cluster_not_ready-KeepsRestore e = record { at = λ c. SameFields-same (same o e c) }
    where
      same : (o : Observed) (e : Error) (c : Charm) → (is_cluster_not_ready o e c).1.state ≡ c.state
      same o e c = unfold is_cluster_not_ready in ground arith

  is_model_error-KeepsRestore : (e : Error) → KeepsRestore (is_model_error o e)
  is_model_error-KeepsRestore e = record { at = λ c. SameFields-same (same o e c) }
    where
      same : (o : Observed) (e : Error) (c : Charm) → (is_model_error o e c).1.state ≡ c.state
      same o e c = unfold is_model_error in ground arith

  health-KeepsRestore : KeepsRestore (attempt (lift o.healthy_before) (is_model_error o))
  health-KeepsRestore =
      KeepsFields-attempt (lift o.healthy_before) (is_model_error o)
        (KeepsFields-lift o.healthy_before) is_model_error-KeepsRestore

  pub on_pebble_ready_upgrade-KeepsRestore :
      (entries : Option (List ProvidedCertificate))
      → KeepsRestore (on_pebble_ready_upgrade o entries)
  unfolding on_pebble_ready_upgrade
  on_pebble_ready_upgrade-KeepsRestore entries =
      search
        (
          fields_rules, fixes-KeepsRestore, init_server-KeepsRestore,
          post_upgrade_check-KeepsRestore, is_cluster_not_ready-KeepsRestore, health-KeepsRestore,
        )
        depth 20
