-- ===== src/Events/Provider/Keeps.antt =====
-- The provider's handlers and the fields of a restore: src/events/provider.py.
use Prim.Native.String.{◌++◌}
use text.Mathlib.Text.{starts_with}
use text.Mathlib.TextPositions.{starts_with-append}
use zookeeper_k8s_operator.Base.{ℕ, String, ◌≡◌, refl, true, List, [], ◌∷◌, Option}
use zookeeper_k8s_operator.Text.{str}
use zookeeper_k8s_operator.Models.Client.{ZkClient, username, relation_user}
use zookeeper_k8s_operator.Charm.{Observed}
use zookeeper_k8s_operator.Models.App.Apart.{is_apart}
use zookeeper_k8s_operator.Charm.Monad.Restoring.{
  is_restore_key, KeepsRestore, KeepsFields-of, KeepsFields-done, KeepsFields-then,
  KeepsFields-update_app, is_apart-by, fields_rules,
}
use zookeeper_k8s_operator.Quorum.Acls.{update_acls}
use zookeeper_k8s_operator.Quorum.Acls.Keeps.{update_acls-KeepsState}
use zookeeper_k8s_operator.Events.Provider.{
  set_password, set_passwords, try_acls, on_client_relation_updated, on_client_relation_broken,
}

update_acls-KeepsRestore : (o : Observed) (broken : Option ℕ) → KeepsRestore (update_acls o broken)
update_acls-KeepsRestore o broken =
    KeepsFields-of (update_acls o broken) (update_acls-KeepsState o broken)

is_apart-relation_user :
    (id : ℕ) (v : String) → is_apart is_restore_key ((relation_user id, v) ∷ []) ≡ true
unfolding relation_user
is_apart-relation_user id v =
    is_apart-by (λ key. starts_with key "relation-") ("relation-" ++ str id) v
      (starts_with-append "relation-" (str id)) refl refl refl

is_apart-username :
    (client : ZkClient) (v : String) → is_apart is_restore_key ((username client, v) ∷ []) ≡ true
unfolding username
is_apart-username client v = is_apart-relation_user client.relation_id v

module _ (o : Observed) where
  set_password-KeepsRestore : (client : ZkClient) → KeepsRestore (set_password o client)
  unfolding set_password
  set_password-KeepsRestore client =
      search (fields_rules, KeepsFields-update_app, is_apart-username)

  set_passwords-KeepsRestore :
      (all_clients : List ZkClient) → KeepsRestore (set_passwords o all_clients)
  unfolding set_passwords
  set_passwords-KeepsRestore [] = KeepsFields-done
  set_passwords-KeepsRestore (client ∷ rest) =
      KeepsFields-then (set_password o client) (set_passwords o rest)
        (set_password-KeepsRestore client) (set_passwords-KeepsRestore rest)

  try_acls-KeepsRestore : KeepsRestore (try_acls o)
  unfolding try_acls
  try_acls-KeepsRestore = search (fields_rules, update_acls-KeepsRestore) depth 12

  pub on_client_relation_updated-KeepsRestore : KeepsRestore (on_client_relation_updated o)
  unfolding on_client_relation_updated
  on_client_relation_updated-KeepsRestore =
      search (fields_rules, try_acls-KeepsRestore, set_passwords-KeepsRestore) depth 15

  pub on_client_relation_broken-KeepsRestore :
      (id : ℕ) → KeepsRestore (on_client_relation_broken o id)
  unfolding on_client_relation_broken
  on_client_relation_broken-KeepsRestore id =
      search
        (
          fields_rules, KeepsFields-update_app, is_apart-relation_user,
          on_client_relation_updated-KeepsRestore,
        )
        depth 12
