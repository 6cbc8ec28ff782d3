-- ===== src/Workload/Admin.antt =====
-- The service behind the workload, and its admin server's answers: `alive`, `healthy` and `get_version`
-- of src/workload.py.
pub mod Checks
use zookeeper_k8s_operator.Base.{
  ℕ, zero, suc, String, Bool, true, false, not, Option, none, some, [], ◌∷◌, if◌then◌else◌, Error,
  Outcome, ok, raised, decode_error, ◌>>=◌,
}
use zookeeper_k8s_operator.Text.{truthy, split}

-- What the admin server answers to `ruok`: an HTTPError, a body that is not JSON, or one with its
-- `error`, if it has one.
pub data RuokAnswer : Type 0 where
  ruok_failed ruok_unreadable : RuokAnswer
  ruok_body : Option String → RuokAnswer

-- and to `srvr`: the `version` of its body, if it has one
pub data SrvrAnswer : Type 0 where
  srvr_failed srvr_unreadable : SrvrAnswer
  srvr_body : Option String → SrvrAnswer

-- What is seen at one moment: whether the container answers, what it says of the service, which is a
-- ModelError where it has no such service, and the admin server's answer.
pub record Probe : Type 0 where
  pub container_can_connect : Bool
  pub is_running : Outcome Bool
  pub ruok : RuokAnswer

unfoldable pub alive : Probe → Outcome Bool
alive p = if not p.container_can_connect then ok false else p.is_running

has_error : Option String → Bool
unfolding truthy
has_error none = false
has_error (some e) = truthy e

-- one attempt
unfoldable pub healthy_once : Probe → Outcome Bool
unfolding alive has_error
healthy_once p = alive p >>= λ running. if not running then ok false else of_answer p.ruok
  where
    of_answer : RuokAnswer → Outcome Bool
    of_answer ruok_failed = ok false
    of_answer ruok_unreadable = raised decode_error
    of_answer (ruok_body error) = if has_error error then ok false else ok true

-- `probe n` is what the attempt `n` sees; false once the attempts are used up. An exception is not tried
-- again.
unfoldable pub healthy_from : ℕ → ℕ → (ℕ → Probe) → Outcome Bool
unfolding healthy_once
healthy_from zero n probe = ok false
healthy_from (suc tries) n probe =
    let rest = healthy_from tries (suc n) probe in
    healthy_once (probe n) >>= λ up. if up then ok true else rest

unfoldable pub healthy : (ℕ → Probe) → Outcome Bool
unfolding healthy_from
healthy probe = healthy_from 5 0 probe

-- `now` is what is seen before the health checks
unfoldable pub get_version : Probe → (ℕ → Probe) → SrvrAnswer → Outcome String
unfolding alive healthy truthy split
get_version now probe answer = alive now >>= λ running.
    if not running
    then ok ""
    else healthy probe >>= λ up. if not up then ok "" else of_answer answer
  where
    first_part : String → String
    first_part full_version = elim (split b'-' full_version) [ [] ↦ "" | part ∷ rest ↦ part ]

    of_answer : SrvrAnswer → Outcome String
    of_answer srvr_failed = ok ""
    of_answer srvr_unreadable = raised decode_error
    of_answer (srvr_body none) = ok ""
    of_answer (srvr_body (some full_version)) =
        ok (if truthy full_version then first_part full_version else full_version)
