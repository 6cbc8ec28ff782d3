-- ===== src/Events/Restore/Returns.antt =====
-- When the restore's handler returns: `_restore_event_dispatch` of src/events/backup.py.
pub mod Steps
use zookeeper_k8s_operator.Base.{
  String, ◌≡◌, refl, ap, ◌∙◌, Bool, true, false, inl, inr, Bool-cases, [], ◌∷◌, some, ok, str_eq,
  sym, arith, if◌then◌else◌,
}
use zookeeper_k8s_operator.Literals.{
  RestoreStep, not_started, stop_workflow, restore, restart, clean,
}
use zookeeper_k8s_operator.Databag.{get, get_or, or_default}
use zookeeper_k8s_operator.Models
use zookeeper_k8s_operator.Models.App.Apart.{is_apart}
use zookeeper_k8s_operator.State.{ClusterState, cluster}
use zookeeper_k8s_operator.State.Health.{is_next_restore_step_possible}
use zookeeper_k8s_operator.Backups.Files.{bucket_path}
use zookeeper_k8s_operator.Charm.{Charm, Observed}
use zookeeper_k8s_operator.Charm.Monad.{M, ◌>>◌, update_app, write_app}
use zookeeper_k8s_operator.Charm.Monad.Fields.{SameFields, KeepsFields-update_app}
use zookeeper_k8s_operator.Events.Backup.{s3_credentials}
use zookeeper_k8s_operator.Events.Restore.{
  dispatch, reconnect, payload, maybe_progress_step, restore_event_dispatch,
}
use zookeeper_k8s_operator.Events.Restore.Refine.{forgets}
use zookeeper_k8s_operator.Events.Restore.Local.{Local, Sees, lead_local, may_lead}
use zookeeper_k8s_operator.Events.Restore.Local.Lead.{
  lead-Sees, leads_first, state-leads_first, written_by_leader,
}
use zookeeper_k8s_operator.Events.Restore.Returns.Steps.{
  Recovers, Answers, then-returns, dispatch_step-returns,
}

reconnect-returns :
    (o : Observed) (c : Charm) (i : RestoreStep)
    → (reconnect o clean c).0 ≡ ok tt
    → (reconnect o i c).0 ≡ ok tt
unfolding reconnect
reconnect-returns o c clean h = h
reconnect-returns o c _ h = refl

leads_first-returns :
    (o : Observed) (c : Charm) (leads : Bool) {i : RestoreStep} {possible : Bool}
    → Models.App.restore_instruction (cluster c.state) ≡ some i
    → is_next_restore_step_possible c.state ≡ ok possible
    → (reconnect o clean c).0 ≡ ok tt
    → (leads_first o leads c).0 ≡ ok tt
unfolding leads_first maybe_progress_step
leads_first-returns o c false told found h = refl
leads_first-returns o c true {possible = false} told found h = rw (told, found) refl
leads_first-returns o c true {i} {possible = true} told found h =
    rw (told, found)
      (then-returns (reconnect o i) (update_app (payload i)) c (reconnect-returns o c i h)
        (unfold update_app in refl))

-- The leader's part leaves the parameters of the storage as they were.
abbrev credentials_key : String → Bool
credentials_key key = str_eq key "s3-credentials"

payload-is_apart : (i : RestoreStep) → is_apart credentials_key (payload i) ≡ true
unfolding payload
payload-is_apart not_started = refl
payload-is_apart stop_workflow = refl
payload-is_apart restore = refl
payload-is_apart restart = refl
payload-is_apart clean = refl

same-s3_credentials :
    (o : Observed) (s t : ClusterState)
    → SameFields credentials_key s t
    → s3_credentials o t ≡ s3_credentials o s
unfolding s3_credentials
same-s3_credentials o s t k =
    ap (λ (v : String). o.loads_map v) (rw k.related (same s.peer_relation))
  where
    same :
        (related : Bool)
        → get_or "s3-credentials" "{}" (if related then t.app_data else [])
          ≡ get_or "s3-credentials" "{}" (if related then s.app_data else [])
    same false = refl
    same true = unfold get_or in ap (or_default "{}") (k.app "s3-credentials" refl)

written-s3_credentials :
    (o : Observed) (c : Charm) (possible : Bool) (i : RestoreStep)
    → s3_credentials o (written_by_leader possible i c.state) ≡ s3_credentials o c.state
unfolding written_by_leader
written-s3_credentials o c false i = refl
written-s3_credentials o c true i = same-s3_credentials o c.state (write_app (payload i) c.state) (
    unfold update_app in
    (KeepsFields-update_app {kept = credentials_key} (payload i) (payload-is_apart i)).at c)

module _ (o : Observed) (c : Charm) {l : Local} {path : String} {possible : Bool}
    (related : c.state.peer_relation ≡ true) (v : Sees l c.state) (up : Recovers o)
    (answers : Answers o) (stored : bucket_path (s3_credentials o c.state) ≡ ok path)
    (read : is_next_restore_step_possible c.state ≡ ok possible)
    (answered : (reconnect o clean c).0 ≡ ok tt) where
  dispatch-returns :
      (d : Charm) {k : Local}
      → Sees k d.state
      → bucket_path (s3_credentials o d.state) ≡ ok path
      → (dispatch o d).0 ≡ ok tt
  unfolding dispatch
  dispatch-returns d {k} w there =
      rw (w.instruction, w.progress)
        (dispatch_step-returns o answers d k.instruction k.progress up there)

  on-returns : l.under_way ≡ true → (restore_event_dispatch o c).0 ≡ ok tt
  on-returns on =
      let led = leads_first-returns o c o.is_leader v.instruction read answered in
      let written = state-leads_first o c o.is_leader v.instruction led in
      rw in_parts (
        then-returns (leads_first o o.is_leader) (dispatch o) c led (
          dispatch-returns (leads_first o o.is_leader c).1 {k = lead_local (may_lead o c) l}
            (rw written (lead-Sees (may_lead o c) related on v))
            (rw written
              (ap bucket_path (written-s3_credentials o c (may_lead o c) l.instruction) ∙ stored))))
    where
      in_parts : restore_event_dispatch o c ≡ (leads_first o o.is_leader >> dispatch o) c
      in_parts = unfold restore_event_dispatch leads_first in rw (v.under_way ∙ on) refl

  -- In a related unit whose restore fields can be read, as can the progress of all units, and where the
  -- parameters of the storage are complete: if the calls of the container and of the unit's disk raise nothing,
  -- one of three health checks passes and none before it raises, and the quorum answers the update of the
  -- access rights, the handler returns.
  pub restore_event_dispatch-returns : (restore_event_dispatch o c).0 ≡ ok tt
  restore_event_dispatch-returns = elim (Bool-cases l.under_way) [
    | inl on ↦ on-returns on
    | inr off ↦ (forgets o c related (v.under_way ∙ off) v.progress).0
  ]
