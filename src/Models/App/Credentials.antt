-- ===== src/Models/App/Credentials.antt =====
-- Setting and reading the passwords of the charm's users: src/core/models.py.
use Prim.Native.String.{◌++◌}
use zookeeper_k8s_operator.Base.{String, ◌≡◌, ◌≢◌, refl, sym, ap, ◌∙◌, true, some, [], ◌∷◌, arith}
use zookeeper_k8s_operator.Text.{truthy}
use zookeeper_k8s_operator.Databag.{get, get_or, or_default}
use zookeeper_k8s_operator.Databag.Update.{overlay}
use zookeeper_k8s_operator.Models.App.{ZkCluster, update, internal_user_credentials, credentials_of}
use zookeeper_k8s_operator.Models.App.Update.{get_or-update_keys}

password : String → ZkCluster → String
password user c = get_or (user ++ "-password") "" c.relation_data

complete :
    (c : ZkCluster)
    → internal_user_credentials c ≢ []
    → (truthy (password "super" c) ≡ true) × (truthy (password "sync" c) ≡ true)
unfolding internal_user_credentials credentials_of password
complete c h = ground arith

found :
    (c : ZkCluster)
    → truthy (password "super" c) ≡ true
    → truthy (password "sync" c) ≡ true
    → (get "super" (internal_user_credentials c) ≡ some (password "super" c))
      × (get "sync" (internal_user_credentials c) ≡ some (password "sync" c))
unfolding internal_user_credentials credentials_of password get
found c h k = ground (arith, h, k)

password-update :
    (user other new : String) (c : ZkCluster)
    → c.relation ≡ true
    → password other (update ((user ++ "-password", new) ∷ []) c)
      ≡ or_default "" (
          overlay
            (get (other ++ "-password") ((user ++ "-password", new) ∷ []))
            (get (other ++ "-password") c.relation_data))
unfolding password update get
password-update user other new c related = rw related (
    get_or-update_keys (other ++ "-password") "" ((user ++ "-password", new) ∷ []) c.relation_data
      (refl, tt))

super_new :
    (new : String) (c : ZkCluster)
    → c.relation ≡ true
    → truthy new ≡ true
    → password "super" (update (("super-password", new) ∷ []) c) ≡ new
unfolding get overlay
super_new new c related full = password-update "super" "super" new c related ∙ rw full refl

sync_kept :
    (new : String) (c : ZkCluster)
    → c.relation ≡ true
    → password "sync" (update (("super-password", new) ∷ []) c) ≡ password "sync" c
unfolding get overlay password get_or
sync_kept new c related = password-update "super" "sync" new c related

-- Once the passwords of the charm's users are set, a new non-empty password of `super` is the one
-- that is read back, and `sync` keeps its password.
pub credentials-update :
    (c : ZkCluster) (new : String)
    → c.relation ≡ true
    → internal_user_credentials c ≢ []
    → truthy new ≡ true
    → (get "super" (internal_user_credentials (update (("super-password", new) ∷ []) c)) ≡ some new)
      × (get "sync" (internal_user_credentials (update (("super-password", new) ∷ []) c))
          ≡ get "sync" (internal_user_credentials c))
credentials-update c new related set full =
    let old = complete c set in
    let after =
      found (update (("super-password", new) ∷ []) c) (rw (super_new new c related full) full)
        (rw (sync_kept new c related) old.1) in
    (
      after.0 ∙ ap some (super_new new c related full),
      after.1 ∙ ap some (sync_kept new c related) ∙ sym (found c old.0 old.1).1,
    )
