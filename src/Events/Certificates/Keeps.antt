-- ===== src/Events/Certificates/Keeps.antt =====
-- The TLS handlers and the fields of a restore: src/events/tls.py.
use zookeeper_k8s_operator.Base.{String, Option, Outcome, ok, raised}
use zookeeper_k8s_operator.Charm.{Observed}
use zookeeper_k8s_operator.Charm.Monad.Restoring.{
  KeepsRestore, KeepsFields-done, KeepsFields-lift, KeepsFields-update_app, KeepsFields-update_unit,
  fields_rules,
}
use zookeeper_k8s_operator.Tls.Keeps.{set_tls_files-KeepsRestore, remove_all_stores-KeepsRestore}
use zookeeper_k8s_operator.Tls.Sans.{Sans}
use zookeeper_k8s_operator.Events.Certificates.{
  NewCertificate, certificate_fields, lift_names, create_key, create_store_passwords, make_csr,
  on_certificates_created, on_certificates_joined, on_certificate_available,
  on_certificate_expiring, on_certificates_broken, set_tls_private_key,
}

module _ (o : Observed) where
  pub on_certificates_created-KeepsRestore : KeepsRestore (on_certificates_created o)
  unfolding on_certificates_created
  on_certificates_created-KeepsRestore = search (fields_rules, KeepsFields-update_app) depth 12

  create_key-KeepsRestore : KeepsRestore (create_key o)
  unfolding create_key
  create_key-KeepsRestore = search (fields_rules, KeepsFields-update_unit)

  create_store_passwords-KeepsRestore : KeepsRestore (create_store_passwords o)
  unfolding create_store_passwords
  create_store_passwords-KeepsRestore = search (fields_rules, KeepsFields-update_unit)

  lift_names-KeepsRestore : (sans : Outcome Sans) → KeepsRestore (lift_names o sans)
  unfolding lift_names
  lift_names-KeepsRestore (ok sans) = KeepsFields-done
  lift_names-KeepsRestore (raised e) = KeepsFields-lift (raised e)

  make_csr-KeepsRestore : KeepsRestore (make_csr o)
  unfolding make_csr
  make_csr-KeepsRestore = search (fields_rules, lift_names-KeepsRestore)

  pub on_certificates_joined-KeepsRestore : KeepsRestore (on_certificates_joined o)
  unfolding on_certificates_joined
  on_certificates_joined-KeepsRestore =
      search
        (
          fields_rules, create_key-KeepsRestore, create_store_passwords-KeepsRestore,
          make_csr-KeepsRestore, KeepsFields-update_unit,
        )
        depth 15

  pub on_certificate_available-KeepsRestore :
      (e : NewCertificate) → KeepsRestore (on_certificate_available o e)
  unfolding on_certificate_available certificate_fields
  on_certificate_available-KeepsRestore e =
      search (fields_rules, KeepsFields-update_unit, set_tls_files-KeepsRestore) depth 12

  pub on_certificate_expiring-KeepsRestore : KeepsRestore (on_certificate_expiring o)
  unfolding on_certificate_expiring
  on_certificate_expiring-KeepsRestore =
      search (fields_rules, make_csr-KeepsRestore, KeepsFields-update_unit) depth 12

  pub on_certificates_broken-KeepsRestore : KeepsRestore (on_certificates_broken o)
  unfolding on_certificates_broken
  on_certificates_broken-KeepsRestore =
      search
        (
          fields_rules, KeepsFields-update_unit, KeepsFields-update_app,
          remove_all_stores-KeepsRestore,
        )
        depth 12

  pub set_tls_private_key-KeepsRestore :
      (key : Option String) → KeepsRestore (set_tls_private_key o key)
  unfolding set_tls_private_key
  set_tls_private_key-KeepsRestore key =
      search (fields_rules, KeepsFields-update_unit, on_certificate_expiring-KeepsRestore)
