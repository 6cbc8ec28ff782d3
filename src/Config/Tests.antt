-- ===== src/Config/Tests.antt =====
-- Two configurations with the same lines in another order.
use zookeeper_k8s_operator.Config.Changes.{config_changed, jaas_changed}
use zookeeper_k8s_operator.Config.Changes.Settled.{properties_changed-config_changed}
use zookeeper_k8s_operator.Text.{str_in, is_other_break}
use zookeeper_k8s_operator.Text.Lines.{ends_plainly}
use zookeeper_k8s_operator.Config.Jaas.{jaas_config}
use zookeeper_k8s_operator.State.Endpoints.{clients}
use zookeeper_k8s_operator.State.{ClusterState}
use zookeeper_k8s_operator.Models
use zookeeper_k8s_operator.Databag.{get}
use zookeeper_k8s_operator.Base.{refl}
use zookeeper_k8s_operator.Samples.{two_units, config}
use zookeeper_k8s_operator.Config.{zookeeper_properties, limit_properties}
use zookeeper_k8s_operator.Config.Changes.{set_zookeeper_properties, properties_changed}
use zookeeper_k8s_operator.Config.Changes.Written.{properties_changed-set_zookeeper_properties}
use zookeeper_k8s_operator.Base.{refl}
use zookeeper_k8s_operator.Base.{◌≡◌, false, [], ◌∷◌}
use zookeeper_k8s_operator.Databag.{Databag}
use zookeeper_k8s_operator.Workload.{Files}
use zookeeper_k8s_operator.Config.Changes.{update_environment}
use zookeeper_k8s_operator.Config.Changes.Environment.{
  is_variable, environment, over, get-update_environment,
}

abbrev cluster_of_two : ClusterState
cluster_of_two = two_units [] [] []

properties_changed-set_zookeeper_properties_example :
    properties_changed config cluster_of_two (set_zookeeper_properties config cluster_of_two [])
    ≡ false
unfolding zookeeper_properties limit_properties str_in Models.App.quorum Models.App.tls
    Models.App.switching_encryption get
properties_changed-set_zookeeper_properties_example =
    properties_changed-set_zookeeper_properties config cluster_of_two [] refl
      (refl, (refl, (refl, tt)))

properties_changed-config_changed_example :
    (properties_changed config cluster_of_two (config_changed config cluster_of_two []).1 ≡ false)
    × (jaas_changed cluster_of_two (config_changed config cluster_of_two []).1 ≡ false)
unfolding zookeeper_properties limit_properties str_in Models.App.quorum Models.App.tls
    Models.App.switching_encryption get ends_plainly jaas_config
    Models.App.internal_user_credentials clients Models.App.client_passwords is_other_break
properties_changed-config_changed_example =
    properties_changed-config_changed config cluster_of_two [] refl (refl, (refl, (refl, tt))) refl

abbrev environment_files : Files
environment_files = ("/etc/environment", "PATH=/usr/bin:/bin\n\nA=B=C\nHEAP") ∷ []

abbrev new_heap : Databag
new_heap = ("HEAP", "2g") ∷ []

variables :
    (environment environment_files ≡ ("PATH", "/usr/bin:/bin") ∷ ("A", "B=C") ∷ ("HEAP", "") ∷ [])
    × (update_environment new_heap environment_files
        ≡ ("/etc/environment", "PATH=/usr/bin:/bin\nA=B=C\nHEAP=2g") ∷ [])
unfolding environment update_environment
variables = (refl, refl)

get-update_environment_example :
    get "HEAP" (environment (update_environment new_heap environment_files))
    ≡ over (get "HEAP" new_heap) (get "HEAP" (environment environment_files))
unfolding is_variable get
get-update_environment_example =
    get-update_environment new_heap environment_files "HEAP" ((refl, tt), (refl, tt))
