-- ===== src/Quorum/Acls/Keeps.antt =====
-- The update of the access rights and the databags: src/managers/quorum.py.
use zookeeper_k8s_operator.Base.{ℕ, String, Option, List, [], ◌∷◌}
use zookeeper_k8s_operator.Models.Client.{ZkClient}
use zookeeper_k8s_operator.Charm.{Acl, Observed, Effect, set_acls}
use zookeeper_k8s_operator.Charm.Monad.Keeps.{
  KeepsState, KeepsState-done, KeepsState-then, keeps_rules,
}
use zookeeper_k8s_operator.Quorum.Acls.{
  znode_call, set_acls_of, update_client_acls, one_client, update_all_acls, update_acls,
}

module _ (o : Observed) where
  znode_call-KeepsState : (e : Effect) → KeepsState (znode_call o e)
  unfolding znode_call
  znode_call-KeepsState e = search keeps_rules

  set_acls_of-KeepsState : (acl : Acl) (nodes : List String) → KeepsState (set_acls_of o acl nodes)
  unfolding set_acls_of
  set_acls_of-KeepsState acl [] = KeepsState-done
  set_acls_of-KeepsState acl (node ∷ rest) =
      KeepsState-then (znode_call o (set_acls node acl)) (set_acls_of o acl rest)
        (znode_call-KeepsState (set_acls node acl)) (set_acls_of-KeepsState acl rest)

  update_client_acls-KeepsState :
      (chroots : List String) (client : ZkClient) → KeepsState (update_client_acls o chroots client)
  unfolding update_client_acls
  update_client_acls-KeepsState chroots client =
      search (keeps_rules, znode_call-KeepsState, set_acls_of-KeepsState)

  one_client-KeepsState :
      (broken : Option ℕ) (chroots : List String) (client : ZkClient)
      → KeepsState (one_client o broken chroots client)
  unfolding one_client
  one_client-KeepsState broken chroots client = search (keeps_rules, update_client_acls-KeepsState)

  update_all_acls-KeepsState :
      (broken : Option ℕ) (chroots : List String) (all_clients : List ZkClient)
      → KeepsState (update_all_acls o broken chroots all_clients)
  unfolding update_all_acls
  update_all_acls-KeepsState broken chroots [] = KeepsState-done
  update_all_acls-KeepsState broken chroots (client ∷ rest) =
      KeepsState-then (one_client o broken chroots client) (update_all_acls o broken chroots rest)
        (one_client-KeepsState broken chroots client)
        (update_all_acls-KeepsState broken chroots rest)

  pub update_acls-KeepsState : (broken : Option ℕ) → KeepsState (update_acls o broken)
  unfolding update_acls
  update_acls-KeepsState broken = search (keeps_rules, update_all_acls-KeepsState)
