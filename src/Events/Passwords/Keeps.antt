-- ===== src/Events/Passwords/Keeps.antt =====
-- The password actions and the fields of a restore: src/events/password_actions.py.
use Prim.Native.String.{◌++◌}
use zookeeper_k8s_operator.Base.{String, Option, none, some, ◌≡◌, refl, true, ◌∷◌, [], arith}
use zookeeper_k8s_operator.Text.{ends_with}
use zookeeper_k8s_operator.Text.Suffix.{ends_with-append}
use zookeeper_k8s_operator.Charm.{Observed}
use zookeeper_k8s_operator.Models.App.Apart.{is_apart}
use zookeeper_k8s_operator.Charm.Monad.Restoring.{
  is_restore_key, KeepsRestore, KeepsFields-lift, KeepsFields-act, KeepsFields-update_app,
  is_apart-by, fields_rules,
}
use zookeeper_k8s_operator.Charm.Changed.Keeps.{on_cluster_relation_changed-KeepsRestore}
use zookeeper_k8s_operator.Events.Passwords.{
  get_password_action, reply, store_password, set_password_action,
}

reply-KeepsRestore : (user : String) (password : Option String) → KeepsRestore (reply user password)
unfolding reply
reply-KeepsRestore user none = KeepsFields-lift _
reply-KeepsRestore user (some password) = KeepsFields-act _

pub get_password_action-KeepsRestore : (user : String) → KeepsRestore (get_password_action user)
unfolding get_password_action
get_password_action-KeepsRestore user = search (fields_rules, reply-KeepsRestore)

is_apart-password :
    (user v : String) → is_apart is_restore_key ((user ++ "-password", v) ∷ []) ≡ true
unfolding ends_with
is_apart-password user v =
    is_apart-by (λ key. ends_with key "password") (user ++ "-password") v
      (ends_with-append user "-password" "password" (omega arith)) refl refl refl

store_password-KeepsRestore :
    (o : Observed) (user password : String) → KeepsRestore (store_password o user password)
unfolding store_password
store_password-KeepsRestore o user password =
    search
      (
        fields_rules, KeepsFields-update_app, is_apart-password,
        on_cluster_relation_changed-KeepsRestore,
      )
      depth 12

pub set_password_action-KeepsRestore :
    (o : Observed) (user password : Option String)
    → KeepsRestore (set_password_action o user password)
unfolding set_password_action
set_password_action-KeepsRestore o user password =
    search (fields_rules, store_password-KeepsRestore) depth 12
