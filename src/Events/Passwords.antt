-- ===== src/Events/Passwords.antt =====
-- src/events/password_actions.py
pub mod Keeps
use Prim.Native.String.{◌++◌ as cat}
use zookeeper_k8s_operator.Base.{
  String, Bool, not, Option, none, some, [], ◌∷◌, str_eq, any, if◌then◌else◌, raised, key_error,
}
use zookeeper_k8s_operator.Literals.{charm_users}
use zookeeper_k8s_operator.Databag.{Databag, get}
use zookeeper_k8s_operator.Models
use zookeeper_k8s_operator.State.{cluster}
use zookeeper_k8s_operator.Charm.{Charm, Observed, action_results, action_failed}
use zookeeper_k8s_operator.Charm.Monad.{M, ◌>>=◌, ◌>>◌, gets, act, lift, update_app}
use zookeeper_k8s_operator.Charm.Changed.{on_cluster_relation_changed}

credentials : Charm → Databag
credentials c = Models.App.internal_user_credentials (cluster c.state)

-- a missing user is a KeyError
reply : String → Option String → M (Unit {0})
reply user none = lift (raised key_error)
reply user (some password) = act (action_results ((cat user "-password", password) ∷ []))

unfoldable pub get_password_action : String → M (Unit {0})
unfolding credentials get reply
get_password_action user = do found ← gets (λ c. get user (credentials c)); reply user found

param : Option String → String → String
param none default = default
param (some value) default = value

is_user : String → Bool
is_user name = any (str_eq name) charm_users

-- `new_password in credentials.values()`
unfoldable pub in_use : String → Databag → Bool
in_use password d = any (λ e. str_eq e.1 password) d

module _ (o : Observed) where
  unfoldable pub store_password : String → String → M (Unit {0})
  unfolding credentials in_use update_app on_cluster_relation_changed
  store_password username new_password = do
    taken ← gets (λ c. in_use new_password (credentials c))
    if taken then act (action_results ((cat username "-password", new_password) ∷ [])) else do
      update_app ((cat username "-password", new_password) ∷ [])
      on_cluster_relation_changed o
      act (action_results ((cat username "-password", new_password) ∷ []))

  -- the action's parameters may be missing
  unfoldable pub set_password_action : Option String → Option String → M (Unit {0})
  unfolding param is_user store_password
  set_password_action username password =
      if not o.is_leader
      then act (action_failed "Password rotation must be called on leader unit")
      else if not o.idle
      then act (action_failed "Cannot set password while upgrading")
      else if not (is_user (param username "super"))
      then act (action_failed "The action can be run only for users used by the charm")
      else store_password (param username "super") (param password (o.fresh_password "action"))
