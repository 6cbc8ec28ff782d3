-- ===== src/Charm/Clients/Keeps.antt =====
-- What is told to the clients, and the databags of the unit and of the application: src/charm.py.
use zookeeper_k8s_operator.Base.{String, List, [], ◌∷◌}
use zookeeper_k8s_operator.Models.Client.{ZkClient}
use zookeeper_k8s_operator.Charm.{Observed, update_client}
use zookeeper_k8s_operator.Charm.Monad.{act}
use zookeeper_k8s_operator.Charm.Monad.Keeps.{
  KeepsState, KeepsState-done, KeepsState-then, keeps_rules,
}
use zookeeper_k8s_operator.Charm.Clients.{
  disconnect_all, disconnect_clients, tell_client, update_clients, update_client_data,
}

disconnect_all-KeepsState : (all_clients : List ZkClient) → KeepsState (disconnect_all all_clients)
unfolding disconnect_all
disconnect_all-KeepsState [] = KeepsState-done
disconnect_all-KeepsState (client ∷ rest) =
    KeepsState-then (act (update_client client.relation_id (("endpoints", "") ∷ [])))
      (disconnect_all rest) (search keeps_rules) (disconnect_all-KeepsState rest)

pub disconnect_clients-KeepsState : (o : Observed) → KeepsState (disconnect_clients o)
unfolding disconnect_clients
disconnect_clients-KeepsState o = search (keeps_rules, disconnect_all-KeepsState)

tell_client-KeepsState : (jaas : String) (client : ZkClient) → KeepsState (tell_client jaas client)
unfolding tell_client
tell_client-KeepsState jaas client = search keeps_rules

update_clients-KeepsState :
    (jaas : String) (all_clients : List ZkClient) → KeepsState (update_clients jaas all_clients)
unfolding update_clients
update_clients-KeepsState jaas [] = KeepsState-done
update_clients-KeepsState jaas (client ∷ rest) =
    KeepsState-then (tell_client jaas client) (update_clients jaas rest)
      (tell_client-KeepsState jaas client) (update_clients-KeepsState jaas rest)

pub update_client_data-KeepsState : (o : Observed) → KeepsState (update_client_data o)
unfolding update_client_data
update_client_data-KeepsState o = search (keeps_rules, update_clients-KeepsState) depth 12
