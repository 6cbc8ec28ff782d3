-- ===== src/Models/Client.antt =====
-- `ZKClient` of src/core/models.py: one related client application.
use Prim.Native.String.{◌++◌}
use text.Mathlib.Text.{starts_with}
use zookeeper_k8s_operator.Base.{
  ℕ, String, ◌≡◌, refl, not, ◌&&◌, none, some, [], ◌∷◌, if◌then◌else◌,
}
use zookeeper_k8s_operator.Text.{str, truthy}
use zookeeper_k8s_operator.Databag.{Databag, get, get_or}

pub record ZkClient : Type 0 where
  pub relation_id : ℕ
  pub relation_data : Databag
  pub password : String
  pub endpoints : String
  pub tls : String
  pub uris_base : String  -- the constructor's argument `uris`

unfoldable pub relation_user : ℕ → String
unfolding str
relation_user n = "relation-" ++ str n

unfoldable pub username : ZkClient → String
unfolding relation_user
username c = relation_user c.relation_id

-- prefixed by a slash where it has none
with_slash : String → String
unfolding truthy
with_slash s = if truthy s && not (starts_with s "/") then "/" ++ s else s

unfoldable pub chroot_acl : ZkClient → String
unfolding get
chroot_acl c = elim (get "chroot-acl" c.relation_data) [ none ↦ "cdrwa" | some acl ↦ acl ]

unfoldable pub extra_user_roles : ZkClient → String
unfolding get_or chroot_acl
extra_user_roles c = get_or "extra-user-roles" (chroot_acl c) c.relation_data

unfoldable pub chroot : ZkClient → String
unfolding get_or with_slash
chroot c = with_slash (get_or "chroot" "" c.relation_data)

unfoldable pub database : ZkClient → String
unfolding get_or with_slash chroot
database c = with_slash (get_or "database" (chroot c) c.relation_data)

unfoldable pub uris : ZkClient → String
unfolding database truthy
uris c = if truthy c.uris_base then c.uris_base ++ database c else ""

abbrev sample : ZkClient
sample = record {
  relation_id = 7;
  relation_data = ("chroot", "app") ∷ [];
  password = "p";
  endpoints = "h:2181";
  tls = "disabled";
  uris_base = "h:2181";
}

tests :
    (username sample ≡ "relation-7")
    × (database sample ≡ "/app")
    × (uris sample ≡ "h:2181/app")
    × (extra_user_roles sample ≡ "cdrwa")
unfolding username database uris extra_user_roles
tests = (refl, refl, refl, refl)
