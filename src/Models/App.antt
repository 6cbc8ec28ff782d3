-- ===== src/Models/App.antt =====
-- `ZKCluster` of src/core/models.py: the application's databag.
pub mod Update
pub mod Apart
pub mod Credentials
pub mod Added
use Prim.Native.String.{◌++◌}
use zookeeper_k8s_operator.Base.{
  ℕ, String, ◌≡◌, refl, Bool, true, false, ◌||◌, Option, none, some, List, [], ◌∷◌, str_eq, ◌==◌,
  if◌then◌else◌, length, keep, any,
}
use text.Mathlib.Text.{starts_with}
use zookeeper_k8s_operator.Text.{str, int, isdigit, truthy, str_in}
use zookeeper_k8s_operator.Literals.{RestoreStep, step_of_value, charm_users, secrets_app}
use zookeeper_k8s_operator.Databag.{Databag, get, get_or, insert, delete}

-- The relation may not exist yet. The secrets and the plain fields are read through one mapping.
pub record ZkCluster : Type 0 where
  pub relation : Bool
  pub relation_data : Databag

-- A key that is kept in a Juju secret.
unfoldable pub is_secret_key : String → Bool
is_secret_key key = any (str_eq key) secrets_app || starts_with key "relation-"

-- `set_secret` and `delete_secret` of the data interface.
set_secret : String → String → Databag → Databag
unfolding truthy insert delete
set_secret key value d = if truthy value then insert key value d else delete key d

-- `update_relation_data` of the data interface: Juju removes a key that is set to the empty text.
set_relation_data : String → String → Databag → Databag
unfolding truthy insert delete
set_relation_data key value d = if truthy value then insert key value d else delete key d

-- One round of the loop of `update`.
unfoldable pub update_key : String → String → Databag → Databag
unfolding is_secret_key set_secret set_relation_data
update_key key value d =
    if is_secret_key key then set_secret key value d else set_relation_data key value d

unfoldable pub update_keys : Databag → Databag → Databag
unfolding update_key
update_keys [] d = d
update_keys ((key, value) ∷ items) d = update_keys items (update_key key value d)

unfoldable pub update : Databag → ZkCluster → ZkCluster
unfolding update_keys
update items c =
    if c.relation then record c { relation_data = update_keys items c.relation_data } else c

-- The numbers of the keys that are digits; `none` cannot occur, since `isdigit` was tested.
unfoldable pub quorum_ids : Databag → List ℕ
unfolding isdigit int
quorum_ids [] = []
quorum_ids ((key, value) ∷ d) =
    let rest = quorum_ids d in
    if isdigit key then (elim (int key) [ none ↦ rest | some n ↦ n ∷ rest ]) else rest

unfoldable pub quorum_unit_ids : ZkCluster → List ℕ
unfolding quorum_ids
quorum_unit_ids c = quorum_ids c.relation_data

unfoldable pub is_added : Databag → ℕ → Bool
unfolding get str
is_added d n = elim (get (str n) d) [ none ↦ false | some v ↦ str_eq v "added" ]

unfoldable pub added_unit_ids : ZkCluster → List ℕ
unfolding quorum_unit_ids is_added
added_unit_ids c = keep (is_added c.relation_data) (quorum_unit_ids c)

credentials_of : List String → Databag → Databag
unfolding get_or truthy
credentials_of [] d = []
credentials_of (user ∷ users) d =
    let rest = credentials_of users d in
    let password = get_or (user ++ "-password") "" d in
    if truthy password then (user, password) ∷ rest else rest

unfoldable pub internal_user_credentials : ZkCluster → Databag
unfolding credentials_of
internal_user_credentials c =
    let credentials = credentials_of charm_users c.relation_data in
    if length credentials == length charm_users then credentials else []

unfoldable pub client_passwords : ZkCluster → Databag
unfolding str_in
client_passwords c = keep (λ e. str_in "relation-" e.0) c.relation_data

unfoldable pub rotate_passwords : ZkCluster → Bool
unfolding get_or truthy
rotate_passwords c = truthy (get_or "rotate-passwords" "" c.relation_data)

unfoldable pub quorum : ZkCluster → String
unfolding get_or
quorum c = get_or "quorum" "" c.relation_data

unfoldable pub switching_encryption : ZkCluster → Bool
unfolding get_or truthy
switching_encryption c = truthy (get_or "switching-encryption" "" c.relation_data)

unfoldable pub tls : ZkCluster → Bool
unfolding get_or
tls c = str_eq (get_or "tls" "" c.relation_data) "enabled"

unfoldable pub id_to_restore : ZkCluster → String
unfolding get_or
id_to_restore c = get_or "id-to-restore" "" c.relation_data

-- `none` is a ValueError
unfoldable pub restore_instruction : ZkCluster → Option RestoreStep
unfolding get_or step_of_value
restore_instruction c = step_of_value (get_or "restore-instruction" "" c.relation_data)

unfoldable pub is_restore_in_progress : ZkCluster → Bool
unfolding id_to_restore truthy
is_restore_in_progress c = truthy (id_to_restore c)

abbrev sample : ZkCluster
sample = record {
  relation = true;
  relation_data =
      ("0", "added") ∷ ("sync-password", "x") ∷ ("super-password", "y") ∷ ("10", "removed") ∷ [];
}

tests :
    (quorum_unit_ids sample ≡ 0 ∷ 10 ∷ [])
    × (added_unit_ids sample ≡ 0 ∷ [])
    × (internal_user_credentials sample ≡ ("super", "y") ∷ ("sync", "x") ∷ [])
    × (is_restore_in_progress sample ≡ false)
    × (update (("0", "removed") ∷ ("relation-3", "") ∷ ("tls", "") ∷ []) sample ≡ record sample {
      relation_data =
          ("0", "removed")
          ∷ ("sync-password", "x")
          ∷ ("super-password", "y")
          ∷ ("10", "removed")
          ∷ [];
    })
unfolding quorum_unit_ids added_unit_ids internal_user_credentials is_restore_in_progress update
tests = (refl, refl, refl, refl, refl)
