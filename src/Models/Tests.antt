-- ===== src/Models/Tests.antt =====
-- The models at concrete inputs.
use zookeeper_k8s_operator.Base.{◌≡◌, ◌≢◌, refl, true, some, [], ◌∷◌, arith}
use zookeeper_k8s_operator.Text.{truthy}
use zookeeper_k8s_operator.Databag.{get}
use zookeeper_k8s_operator.Models.Server.{JujuUnit, unit_name, parse_unit_id}
use zookeeper_k8s_operator.Models.Server.Name.{parse_unit_id-unit_name}
use zookeeper_k8s_operator.Models.App.{ZkCluster, update, internal_user_credentials}
use zookeeper_k8s_operator.Models.App.Credentials.{credentials-update}

abbrev app : ZkCluster
app = record {
  relation = true;
  relation_data = ("super-password", "a") ∷ ("sync-password", "b") ∷ [];
}

app_complete : internal_user_credentials app ≢ []
unfolding internal_user_credentials get truthy
app_complete e = ground (arith, e)

credentials-update_example :
    (get "super" (internal_user_credentials (update (("super-password", "new") ∷ []) app))
      ≡ some "new")
    × (get "sync" (internal_user_credentials (update (("super-password", "new") ∷ []) app))
        ≡ get "sync" (internal_user_credentials app))
unfolding truthy
credentials-update_example = credentials-update app "new" refl app_complete refl

abbrev third : JujuUnit
third = record { app = "zookeeper-k8s"; number = 12 }

parse_unit_id-unit_name_example : parse_unit_id (unit_name third) ≡ some 12
parse_unit_id-unit_name_example = parse_unit_id-unit_name third refl
