-- ===== src/Tls/Keeps.antt =====
-- The TLS files and stores, and the databags: src/managers/tls.py.
use zookeeper_k8s_operator.Base.{ℕ, suc, String, ◌≡◌, List, [], ◌∷◌, arith}
use zookeeper_k8s_operator.Charm.{Charm, Observed, Effect}
use zookeeper_k8s_operator.Charm.Monad.Restoring.{
  KeepsRestore, SameFields-same, KeepsFields-then, KeepsFields-done, fields_rules,
}
use zookeeper_k8s_operator.Tls.{
  write_file, set_private_key, set_ca, set_certificate, chain_path, write_chain, exec_or_raise,
  import_alias, import_from, set_bundle, set_chain, set_truststore, set_p12_keystore,
  remove_all_stores, set_tls_files,
}

write_file-KeepsRestore : (content path : String) → KeepsRestore (write_file content path)
unfolding write_file
write_file-KeepsRestore content path = search fields_rules

write_chain-KeepsRestore : (i : ℕ) (certs : List String) → KeepsRestore (write_chain i certs)
unfolding write_chain
write_chain-KeepsRestore i [] = KeepsFields-done
write_chain-KeepsRestore i (cert ∷ rest) =
    KeepsFields-then (write_file cert (chain_path i)) (write_chain (suc i) rest)
      (write_file-KeepsRestore cert (chain_path i)) (write_chain-KeepsRestore (suc i) rest)

module _ (o : Observed) where
  exec_or_raise-KeepsRestore : (e : Effect) → KeepsRestore (exec_or_raise o e)
  exec_or_raise-KeepsRestore e = record { at = λ c. SameFields-same (same o e c) }
    where
      same : (o : Observed) (e : Effect) (c : Charm) → (exec_or_raise o e c).1.state ≡ c.state
      same o e c = unfold exec_or_raise in ground arith

  import_alias-KeepsRestore : (alias : String) → KeepsRestore (import_alias o alias)
  import_alias-KeepsRestore alias = record { at = λ c. SameFields-same (same o alias c) }
    where
      same :
          (o : Observed) (alias : String) (c : Charm) → (import_alias o alias c).1.state ≡ c.state
      same o alias c = unfold import_alias exec_or_raise in ground arith

  import_from-KeepsRestore : (i : ℕ) (certs : List String) → KeepsRestore (import_from o i certs)
  unfolding import_from
  import_from-KeepsRestore i [] = KeepsFields-done
  import_from-KeepsRestore i (cert ∷ rest) =
      KeepsFields-then _ (import_from o (suc i) rest) (import_alias-KeepsRestore _)
        (import_from-KeepsRestore (suc i) rest)

  pub remove_all_stores-KeepsRestore : KeepsRestore (remove_all_stores o)
  unfolding remove_all_stores
  remove_all_stores-KeepsRestore = exec_or_raise-KeepsRestore _

  pub set_tls_files-KeepsRestore : KeepsRestore (set_tls_files o)
  unfolding set_tls_files set_private_key set_ca set_certificate set_bundle set_chain set_truststore
      set_p12_keystore
  set_tls_files-KeepsRestore =
      search
        (
          fields_rules, write_chain-KeepsRestore, import_from-KeepsRestore,
          exec_or_raise-KeepsRestore,
        )
        depth 20
