-- ===== src/Tls.antt =====
-- The TLS files of a unit: `TLSManager` of src/managers/tls.py. Changes of the files' owners are
-- left out: on this substrate they do nothing.
pub mod Sans
pub mod Keeps
use Prim.Native.String.{◌++◌ as cat}
use zookeeper_k8s_operator.Base.{
  ℕ, suc, String, Bool, not, ◌||◌, List, [], ◌∷◌, raised, exec_error, if◌then◌else◌,
}
use zookeeper_k8s_operator.Text.{str, truthy, join}
use zookeeper_k8s_operator.Models
use zookeeper_k8s_operator.Models.Server.{ZkServer, private_key, certificate, ca_cert}
use zookeeper_k8s_operator.Models.Bundle.{bundle}
use zookeeper_k8s_operator.State.{unit_server}
use zookeeper_k8s_operator.Workload.{
  write, conf_path, server_key_path, ca_path, certificate_path, bundle_path,
}
use zookeeper_k8s_operator.Charm.{
  Charm, Observed, Effect, ExecResult, succeeded, already_exists, exec_failed, import_store,
  reimport_store, rename_store, delete_store, build_keystore, remove_stores,
}
use zookeeper_k8s_operator.Charm.Monad.{M, ◌>>=◌, ◌>>◌, done, gets, act, lift, set_files}

-- `self.state.unit_server`
abbrev pub own_server : Charm → ZkServer
own_server c = unit_server c.state

unfoldable pub write_file : String → String → M (Unit {0})
unfolding write
write_file content path = set_files (write content path)

unfoldable pub set_private_key : M (Unit {0})
unfolding write_file truthy
set_private_key = do
  key ← gets (λ c. private_key (own_server c))
  if truthy key then write_file key server_key_path else done

unfoldable pub set_ca : M (Unit {0})
unfolding write_file truthy
set_ca = do
  cert ← gets (λ c. ca_cert (own_server c))
  if truthy cert then write_file cert ca_path else done

unfoldable pub set_certificate : M (Unit {0})
unfolding write_file truthy
set_certificate = do
  cert ← gets (λ c. certificate (own_server c))
  if truthy cert then write_file cert certificate_path else done

unfoldable pub chain_path : ℕ → String
unfolding str
chain_path i = cat conf_path (cat "/bundle" (cat (str i) ".pem"))

write_chain : ℕ → List String → M (Unit {0})
unfolding write_file chain_path
write_chain i [] = done
write_chain i (cert ∷ rest) = write_file cert (chain_path i) >> write_chain (suc i) rest

is_empty : List String → Bool
is_empty [] = Bool.true
is_empty (x ∷ xs) = Bool.false

-- an exec that raises on anything but success
exec_or_raise : Observed → Effect → M (Unit {0})
exec_or_raise o e = act e >> result (o.keytool e)
  where
    result : ExecResult → M (Unit {0})
    result succeeded = done
    result _ = lift (raised exec_error)

-- One alias: imported, or replaced in three steps where it is there already.
import_alias : Observed → String → M (Unit {0})
unfolding exec_or_raise
import_alias o alias = act (import_store alias) >> result (o.keytool (import_store alias))
  where
    result : ExecResult → M (Unit {0})
    result succeeded = done
    result exec_failed = lift (raised exec_error)
    result already_exists =
        exec_or_raise o (rename_store alias)
        >> (exec_or_raise o (reimport_store alias)
            >> exec_or_raise o (delete_store (cat "old-" alias)))

-- the aliases bundle0, bundle1, … of the remaining certificates
import_from : Observed → ℕ → List String → M (Unit {0})
unfolding import_alias str
import_from o i [] = done
import_from o i (cert ∷ rest) = import_alias o (cat "bundle" (str i)) >> import_from o (suc i) rest

module _ (o : Observed) where
  unfoldable pub set_bundle : M (Unit {0})
  unfolding write_file truthy join
  set_bundle = do
    server ← gets own_server
    if not (truthy (certificate server)) || not (truthy (ca_cert server))
        then done
        else write_file (join "\n" (bundle o.loads server)) bundle_path

  unfoldable pub set_chain : M (Unit {0})
  unfolding write_chain is_empty
  set_chain = do
    server ← gets own_server
    if is_empty (Models.Bundle.chain o.loads server)
        then done
        else write_chain 0 (bundle o.loads server)

  unfoldable pub set_truststore : M (Unit {0})
  unfolding import_from
  set_truststore = do certs ← gets (λ c. bundle o.loads (own_server c)); import_from o 0 certs

  unfoldable pub set_p12_keystore : M (Unit {0})
  unfolding exec_or_raise
  set_p12_keystore = exec_or_raise o build_keystore

  unfoldable pub remove_all_stores : M (Unit {0})
  unfolding exec_or_raise
  remove_all_stores = exec_or_raise o remove_stores

  -- The seven setters, in the order in which every caller makes them.
  unfoldable pub set_tls_files : M (Unit {0})
  unfolding set_private_key set_ca set_chain set_certificate set_bundle set_truststore
      set_p12_keystore
  set_tls_files =
      set_private_key
      >> (set_ca
          >> (set_chain
              >> (set_certificate >> (set_bundle >> (set_truststore >> set_p12_keystore)))))
