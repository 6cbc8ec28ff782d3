-- ===== src/Events/Certificates.antt =====
-- src/events/tls.py
pub mod Keeps
use zookeeper_k8s_operator.Base.{
  String, Bool, not, ◌||◌, Option, none, some, List, [], ◌∷◌, str_eq, if◌then◌else◌, Outcome,
}
use zookeeper_k8s_operator.Text.{truthy}
use zookeeper_k8s_operator.Literals.{Status, active}
use zookeeper_k8s_operator.Databag.{Databag}
use zookeeper_k8s_operator.Models
use zookeeper_k8s_operator.Models.Server.{private_key, csr, keystore_password, truststore_password}
use zookeeper_k8s_operator.State.{cluster}
use zookeeper_k8s_operator.State.Health.{stable}
use zookeeper_k8s_operator.Tls.{own_server, set_tls_files, remove_all_stores}
use zookeeper_k8s_operator.Tls.Sans.{Sans, build_sans}
use zookeeper_k8s_operator.Charm.{
  Observed, deferred, request_certificate, renew_certificate, config_changed_event,
}
use zookeeper_k8s_operator.Charm.Monad.{
  M, ◌>>=◌, ◌>>◌, done, gets, act, lift, update_app, update_unit,
}

-- `status == Status.ACTIVE`
unfoldable pub is_stable : Status → Bool
is_stable active = Bool.true
is_stable _ = Bool.false

-- `a or b`
or_else : String → String → String
unfolding truthy
or_else a b = if truthy a then a else b

pub record NewCertificate : Type 0 where
  pub signing_request : String
  pub certificate : String
  pub ca : String
  pub chain : List String

module _ (o : Observed) where
  unfoldable pub on_certificates_created : M (Unit {0})
  unfolding is_stable update_app
  on_certificates_created = if not o.is_leader then done else do
    key ← gets (λ c. stable c.state)
    if not (is_stable key)
        then act deferred
        else update_app (("tls", "enabled") ∷ ("switching-encryption", "started") ∷ [])

  create_key : M (Unit {0})
  unfolding truthy update_unit
  create_key = do
    key ← gets (λ c. private_key (own_server c))
    if truthy key then done else update_unit (("private-key", o.fresh_key) ∷ [])

  create_store_passwords : M (Unit {0})
  unfolding or_else update_unit
  create_store_passwords = do
    server ← gets own_server
    update_unit (
        ("keystore-password", or_else (keystore_password server) (o.fresh_password "keystore"))
        ∷ (
          "truststore-password",
          or_else (truststore_password server) (o.fresh_password "truststore"),
        )
        ∷ [])

  lift_names : Outcome Sans → M (Unit {0})
  lift_names (Outcome.ok sans) = done
  lift_names (Outcome.raised e) = lift (Outcome.raised e)

  -- the signing request for the unit's key; building its names may raise
  make_csr : M String
  unfolding lift_names
  make_csr = do
    state ← gets (λ c. c.state)
    lift_names (build_sans o state)
    gets (λ c. o.fresh_csr (private_key (own_server c)))

  unfoldable pub on_certificates_joined : M (Unit {0})
  unfolding create_key create_store_passwords make_csr update_unit
  on_certificates_joined = do
    tls ← gets (λ c. Models.App.tls (cluster c.state))
    if not tls then act deferred else do
      create_key
      create_store_passwords
      request ← make_csr
      update_unit (("csr", request) ∷ [])
      act (request_certificate request)

  unfoldable pub certificate_fields : NewCertificate → Databag
  certificate_fields e =
      ("certificate", e.certificate)
      ∷ ("ca-cert", e.ca)
      ∷ ("ca", "")
      ∷ ("chain", o.dumps e.chain)
      ∷ []

  unfoldable pub on_certificate_available : NewCertificate → M (Unit {0})
  unfolding certificate_fields update_unit
  on_certificate_available e = do
    request ← gets (λ c. csr (own_server c))
    if not (str_eq e.signing_request request)
        then done
        else do update_unit (certificate_fields e); set_tls_files o; act config_changed_event

  unfoldable pub on_certificate_expiring : M (Unit {0})
  unfolding truthy make_csr update_unit
  on_certificate_expiring = do
    server ← gets own_server
    if not (truthy (private_key server) || truthy (csr server)) then done else do
      request ← make_csr
      act (renew_certificate (csr server) request)
      update_unit (("csr", request) ∷ [])

  unfoldable pub on_certificates_broken : M (Unit {0})
  unfolding update_unit update_app remove_all_stores
  on_certificates_broken = do
    update_unit
        (("csr", "") ∷ ("certificate", "") ∷ ("ca-cert", "") ∷ ("ca", "") ∷ ("chain", "") ∷ [])
    remove_all_stores o
    if not o.is_leader
        then done
        else update_app (("tls", "") ∷ ("switching-encryption", "started") ∷ [])

  -- `key` is the action's parameter, decoded where it is in base 64
  unfoldable pub set_tls_private_key : Option String → M (Unit {0})
  unfolding on_certificate_expiring update_unit or_else
  set_tls_private_key key = do
    update_unit (("private-key", chosen key) ∷ [])
    on_certificate_expiring
    where
      chosen : Option String → String
      chosen none = o.fresh_key
      chosen (some k) = or_else k o.fresh_key
