-- ===== src/Quorum/Acls.antt =====
-- `update_acls` of src/managers/quorum.py.
pub mod Keeps
pub mod Grants
use Prim.Native.String.{◌++◌}
use Prim.Native.Char.{code}
use text.Mathlib.Text.{starts_with}
use zookeeper_k8s_operator.Base.{
  ◌&&◌, any, ℕ, String, Bool, false, not, Option, none, some, List, [], ◌∷◌, ◌==◌, if◌then◌else◌,
}
use zookeeper_k8s_operator.Text.{str_in, truthy}
use zookeeper_k8s_operator.Models.Client.{ZkClient, database, username, extra_user_roles}
use zookeeper_k8s_operator.State.Endpoints.{clients}
use zookeeper_k8s_operator.Quorum.{str_mem}
use zookeeper_k8s_operator.Charm.{Acl, Observed, Effect, create_znode, set_acls}
use zookeeper_k8s_operator.Charm.Monad.{M, ◌>>=◌, ◌>>◌, done, gets, act, lift}

-- s.rstrip("/")
rstrip_slash : String → String
unfolding truthy
rstrip_slash String.[] = ""
rstrip_slash (String.◌∷◌ c s) =
    let rest = rstrip_slash s in
    if code c == b'/' && not (truthy rest) then "" else String.◌∷◌ c rest

unfoldable pub acl_of : ZkClient → Acl
unfolding username extra_user_roles str_in
acl_of client = record {
  username = username client;
  password = client.password;
  can_read = str_in "r" (extra_user_roles client);
  can_write = str_in "w" (extra_user_roles client);
  can_create = str_in "c" (extra_user_roles client);
  can_delete = str_in "d" (extra_user_roles client);
  can_admin = str_in "a" (extra_user_roles client);
}

-- path.startswith(chroot.rstrip("/") + "/"), for one of the chroots
unfoldable pub is_child_of : String → List String → Bool
unfolding rstrip_slash
is_child_of path chroots = any (λ chroot. starts_with path (rstrip_slash chroot ++ "/")) chroots

-- the client's relation is the one that the event breaks
unfoldable pub is_broken : Option ℕ → ZkClient → Bool
is_broken none client = false
is_broken (some id) client = client.relation_id == id

module _ (o : Observed) where
  -- a call to the quorum leader, which may raise
  znode_call : Effect → M (Unit {0})
  znode_call e = lift (o.zk.znode_call e) >> act e

  set_acls_of : Acl → List String → M (Unit {0})
  unfolding znode_call
  set_acls_of acl [] = done
  set_acls_of acl (node ∷ rest) = znode_call (set_acls node acl) >> set_acls_of acl rest

  unfoldable pub update_client_acls : List String → ZkClient → M (Unit {0})
  unfolding znode_call set_acls_of database acl_of str_mem
  update_client_acls leader_chroots client = do
    let path = database client
    let acl = acl_of client
    if str_mem path leader_chroots then done else znode_call (create_znode path acl)
    znode_call (set_acls path acl)
    subnodes ← lift (o.zk.leader_znodes path)
    set_acls_of acl subnodes

  -- one round of the loop over the clients
  unfoldable pub one_client : Option ℕ → List String → ZkClient → M (Unit {0})
  unfolding update_client_acls is_broken truthy database
  one_client broken leader_chroots client =
      if not (truthy (database client))
      then done
      else if is_broken broken client
      then done
      else update_client_acls leader_chroots client

  update_all_acls : Option ℕ → List String → List ZkClient → M (Unit {0})
  unfolding one_client
  update_all_acls broken leader_chroots [] = done
  update_all_acls broken leader_chroots (client ∷ rest) =
      one_client broken leader_chroots client >> update_all_acls broken leader_chroots rest

  -- `broken` is the identifier of a broken relation, where the event is such
  unfoldable pub update_acls : Option ℕ → M (Unit {0})
  unfolding update_all_acls
  update_acls broken = do
    leader_chroots ← lift (o.zk.leader_znodes "/")
    all_clients ← gets (λ c. clients c.state)
    update_all_acls broken leader_chroots all_clients
