-- ===== src/Events/Upgrade/Tests.antt =====
-- The checks after an upgrade, where every attempt passes.
use zookeeper_k8s_operator.Base.{◌≡◌, ◌⊎◌, true, false, ◌||◌, ok, raised, [], ◌∷◌}
use zookeeper_k8s_operator.State.{ClusterState}
use zookeeper_k8s_operator.Events.Upgrade.{post_upgrade_check}
use zookeeper_k8s_operator.Events.Upgrade.Check.{passes, reason, post_upgrade_check_lem}
use zookeeper_k8s_operator.Samples.{two_units, charm, observed, zk}
use zookeeper_k8s_operator.Charm.{Observed}

abbrev upgraded : ClusterState
upgraded = two_units (("0", "added") ∷ ("1", "added") ∷ []) [] []

abbrev seen : Observed
seen = record (observed true) { zk_at = λ n. zk ("server.1=a" ∷ "server.2=b" ∷ []) }

post_upgrade_check_lem_example :
    (((passes seen upgraded 0
          || (passes seen upgraded 1
              || (passes seen upgraded 2 || (passes seen upgraded 3 || passes seen upgraded 4))))
        ≡ true)
      × ((post_upgrade_check seen (charm upgraded)).0 ≡ ok tt))
    ⊎ (((passes seen upgraded 0
            || (passes seen upgraded 1
                || (passes seen upgraded 2 || (passes seen upgraded 3 || passes seen upgraded 4))))
          ≡ false)
        × ((post_upgrade_check seen (charm upgraded)).0 ≡ raised (reason seen upgraded 4)))
post_upgrade_check_lem_example = post_upgrade_check_lem seen (charm upgraded)
