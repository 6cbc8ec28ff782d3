-- ===== src/Quorum/Tests.antt =====
-- The update of a concrete quorum.
use zookeeper_k8s_operator.Base.{String, List, ◌≡◌, refl, ok, [], ◌∷◌, ◌++◌}
use zookeeper_k8s_operator.Charm.{ZkAdmin}
use zookeeper_k8s_operator.Quorum.{set_minus, server_number, get_updated_servers, unit_key, str_mem}
use zookeeper_k8s_operator.Quorum.Members.{IsFaithful, Reaches, reconfigure-Reaches}
use zookeeper_k8s_operator.Quorum.Ledger.{Agrees, reconfigure-Agrees}
use zookeeper_k8s_operator.Models.App.{is_added}
use zookeeper_k8s_operator.Databag.{get}
use zookeeper_k8s_operator.Samples.{zk, charm, observed, two_units}
use zookeeper_k8s_operator.Base.{◌↔◌, ◌⊎◌, Mem, false, true, none}
use zookeeper_k8s_operator.Charm.{Charm, Acl, set_acls}
use zookeeper_k8s_operator.Models.Client.{ZkClient}
use zookeeper_k8s_operator.State.Endpoints.{clients}
use zookeeper_k8s_operator.Quorum.Acls.{update_acls}
use zookeeper_k8s_operator.Quorum.Acls.Grants.{Asks, update_acls-Asks}

abbrev present : List String
present = "server.1=a" ∷ "server.3=c" ∷ []

abbrev faithful : ZkAdmin
faithful = record (zk present) {
  remove = λ members gone. ok (set_minus members gone);
  add = λ members new. ok (members ++ new);
}

faithful-IsFaithful : IsFaithful faithful
faithful-IsFaithful = record { removes = λ p g. refl; adds = λ p n. refl }

reconfigure-Reaches_example : Reaches faithful ("server.1=a" ∷ "server.2=b" ∷ []) "server.2=b"
unfolding server_number
reconfigure-Reaches_example =
    reconfigure-Reaches faithful present ("server.1=a" ∷ "server.2=b" ∷ []) "server.2=b"
      faithful-IsFaithful refl refl refl

reconfigure-Agrees_example :
    Agrees faithful
      ("server.1=a" ∷ "server.2=b" ∷ [])
      (("0", "added") ∷ ("2", "added") ∷ [])
      2
      "server.3=c"
unfolding server_number is_added get unit_key str_mem
reconfigure-Agrees_example =
    reconfigure-Agrees faithful present ("server.1=a" ∷ "server.2=b" ∷ [])
      (("0", "added") ∷ ("2", "added") ∷ []) 2 "server.3=c" faithful-IsFaithful refl refl refl refl
      refl refl refl

-- a server with a new address is added, then removed: the record says the last
readdressed :
    get_updated_servers ("server.1=b" ∷ []) ("server.1=a" ∷ []) ≡ ok (("0", "removed") ∷ [])
unfolding get_updated_servers server_number
readdressed = refl

abbrev serving : Charm
serving = charm (two_units [] [] [])

abbrev rights : Acl
rights = record {
  username = "relation-7";
  password = "";
  can_read = false;
  can_write = false;
  can_create = false;
  can_delete = false;
  can_admin = false;
}

update_acls-Asks_example :
    Mem (set_acls "/app" rights) (update_acls (observed true) none serving).1.effects ↔ (
      Mem (set_acls "/app" rights) serving.effects
      ⊎ ((client : ZkClient) × Mem client (clients serving.state)
          × Asks (observed true) none "/app" rights client))
unfolding update_acls clients
update_acls-Asks_example = update_acls-Asks (observed true) none serving "/app" rights refl
