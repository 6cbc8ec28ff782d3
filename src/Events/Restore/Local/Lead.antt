-- ===== src/Events/Restore/Local/Lead.antt =====
-- The leader's part of a hook in the restore flow: `_maybe_progress_step` of src/events/backup.py.
use zookeeper_k8s_operator.Databag.{Databag}
use zookeeper_k8s_operator.Events.Restore.Payload.{flag-payload, told-payload}
use zookeeper_k8s_operator.Base.{
  ◌≡◌, refl, ap, ◌∙◌, true, false, arith, not, ◌&&◌, Bool, inl, inr, some, Outcome, Error, ok,
  raised, sym, Outcome-cases, if◌then◌else◌,
}
use zookeeper_k8s_operator.Literals.{RestoreStep, clean, step_eq}
use zookeeper_k8s_operator.Models
use zookeeper_k8s_operator.State.{ClusterState, cluster, unit_server}
use zookeeper_k8s_operator.State.Health.{all_units_done, is_next_restore_step_possible}
use zookeeper_k8s_operator.State.Health.Steps.{is_next-ok}
use zookeeper_k8s_operator.Charm.{Charm, Observed}
use zookeeper_k8s_operator.Charm.Monad.{M, done, ◌>>◌, write_app, update_app}
use zookeeper_k8s_operator.Charm.Monad.Keeps.{KeepsState, ok-then, keeps_rules}
use zookeeper_k8s_operator.Charm.Clients.Keeps.{update_client_data-KeepsState}
use zookeeper_k8s_operator.Quorum.Acls.Keeps.{update_acls-KeepsState}
use zookeeper_k8s_operator.Events.Restore.{payload, reconnect, maybe_progress_step}
use zookeeper_k8s_operator.Events.Restore.Local.{Local, Sees, lead_local}

unfoldable pub written_by_leader : Bool → RestoreStep → ClusterState → ClusterState
written_by_leader possible i s = if possible then write_app (payload i) s else s

reconnect-KeepsState : (o : Observed) (i : RestoreStep) → KeepsState (reconnect o i)
unfolding reconnect
reconnect-KeepsState o i =
    search (keeps_rules, update_client_data-KeepsState, update_acls-KeepsState)

reconnect-update_app :
    (o : Observed) (c : Charm) (i : RestoreStep)
    → ((reconnect o i >> update_app (payload i)) c).0 ≡ ok tt
    → ((reconnect o i >> update_app (payload i)) c).1.state ≡ write_app (payload i) c.state
reconnect-update_app o c i returned =
    ap (λ (r : Outcome (Unit {0}) × Charm). r.1.state)
      (ok-then (reconnect o i) (update_app (payload i)) c returned).1
    ∙ (unfold update_app in ap (write_app (payload i)) ((reconnect-KeepsState o i).at c))

-- the leader's part of the hook, where it returns
state-maybe_progress_step :
    (o : Observed) (c : Charm) {i : RestoreStep}
    → Models.App.restore_instruction (cluster c.state) ≡ some i
    → (maybe_progress_step o c).0 ≡ ok tt
    → (maybe_progress_step o c).1.state ≡ written_by_leader (all_units_done c.state) i c.state
unfolding written_by_leader
state-maybe_progress_step o c {i} told returned =
    elim (Outcome-cases (is_next_restore_step_possible c.state)) [
      | inr (e, unread) ↦ absurd (raises (rw (stops e unread) at returned))
      | inl (possible, found) ↦ rw (sym (is_next-ok c.state found)) (goes_on possible found)
    ]
  where
    raises : {e : Error} → Path (Outcome (Unit {0})) (raised e) (ok tt) → ⊥
    raises h = cc

    stops :
        (e : Error)
        → is_next_restore_step_possible c.state ≡ raised e
        → maybe_progress_step o c ≡ (raised e, c)
    stops e unread = unfold maybe_progress_step in rw (told, unread) refl

    leads :
        is_next_restore_step_possible c.state ≡ ok true
        → maybe_progress_step o c ≡ (reconnect o i >> update_app (payload i)) c
    leads found = unfold maybe_progress_step in rw (told, found) refl

    goes_on :
        (possible : Bool)
        → is_next_restore_step_possible c.state ≡ ok possible
        → (maybe_progress_step o c).1.state
          ≡ (if possible then write_app (payload i) c.state else c.state)
    goes_on false found = unfold maybe_progress_step in rw (told, found) refl
    goes_on true found =
        let run = leads found in rw run (reconnect-update_app o c i (rw run at returned))

related-write_app :
    (items : Databag) (s : ClusterState) → (write_app items s).peer_relation ≡ s.peer_relation
unfolding write_app
related-write_app items s = ground arith

own-write_app :
    (items : Databag) (s : ClusterState) → unit_server (write_app items s) ≡ unit_server s
unfolding write_app
own-write_app items s = ground arith

flag_after : (i : RestoreStep) → (if step_eq i clean then false else true) ≡ not (step_eq i clean)
flag_after i = ground arith

-- what the leader writes is what every unit then sees
pub lead-Sees :
    (possible : Bool) {l : Local} {s : ClusterState}
    → s.peer_relation ≡ true
    → l.under_way ≡ true
    → Sees l s
    → Sees (lead_local possible l) (written_by_leader possible l.instruction s)
unfolding lead_local written_by_leader
lead-Sees false related on v = v
lead-Sees true {l} {s} related on v = record {
  under_way =
      flag-payload l.instruction s related
      ∙ ap (λ (b : Bool). if step_eq l.instruction clean then false else b) (v.under_way ∙ on)
      ∙ flag_after l.instruction;
  instruction = told-payload l.instruction s related;
  progress = rw (own-write_app (payload l.instruction) s) v.progress;
}

-- the leader's part, which other units skip
unfoldable pub leads_first : Observed → Bool → M (Unit {0})
leads_first o leads = if leads then maybe_progress_step o else done

pub state-leads_first :
    (o : Observed) (c : Charm) (leads : Bool) {i : RestoreStep}
    → Models.App.restore_instruction (cluster c.state) ≡ some i
    → (leads_first o leads c).0 ≡ ok tt
    → (leads_first o leads c).1.state
      ≡ written_by_leader (leads && all_units_done c.state) i c.state
unfolding leads_first written_by_leader
state-leads_first o c true told returned = state-maybe_progress_step o c told returned
state-leads_first o c false told returned = refl

pub related-written :
    (possible : Bool) (i : RestoreStep) (s : ClusterState)
    → (written_by_leader possible i s).peer_relation ≡ s.peer_relation
unfolding written_by_leader
related-written true i s = related-write_app (payload i) s
related-written false i s = refl
