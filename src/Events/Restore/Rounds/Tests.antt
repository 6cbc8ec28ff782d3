-- ===== src/Events/Restore/Rounds/Tests.antt =====
-- The restore of an application of one unit, round by round.
use zookeeper_k8s_operator.Base.{
  ℕ, String, zero, suc, ◌≡◌, ◌≢◌, ◌<◌, refl, any, ◌==◌, map, get_elem?, true, false, some, [], ◌∷◌,
  ok, arith,
}
use zookeeper_k8s_operator.Text.{truthy}
use zookeeper_k8s_operator.Literals.{not_started, step_of_value}
use zookeeper_k8s_operator.Databag.{Databag, get, get_or}
use zookeeper_k8s_operator.Databag
use zookeeper_k8s_operator.Models
use zookeeper_k8s_operator.State.{ClusterState, cluster, unit_server, all_units_related}
use zookeeper_k8s_operator.Charm.{Observed}
use zookeeper_k8s_operator.Samples.{two_units, charm, observed, storing}
use zookeeper_k8s_operator.Events.Hooks.{
  Handler, cluster_handler, run, hook_calls, cluster_relation_changed,
}
use zookeeper_k8s_operator.Events.Hooks.{handle, observers}
use zookeeper_k8s_operator.Charm.Changed.{on_cluster_relation_changed}
use zookeeper_k8s_operator.Models.App.{
  is_restore_in_progress, restore_instruction, update, switching_encryption,
}
use zookeeper_k8s_operator.Models.Server.{restore_progress}
use zookeeper_k8s_operator.State.{servers}
use zookeeper_k8s_operator.State.Health.{
  is_next_restore_step_possible, ready, all_units_quorum, all_units_unified, stable,
}
use zookeeper_k8s_operator.Charm.Clients.{update_client_data}
use zookeeper_k8s_operator.State.Endpoints.{clients}
use zookeeper_k8s_operator.Quorum.Acls.{update_acls}
use zookeeper_k8s_operator.Events.Restore.{
  restore_event_dispatch, dispatch_step, maybe_progress_step, payload, reset_progress,
}
use zookeeper_k8s_operator.Events.Restore.Flow.{Flow}
use zookeeper_k8s_operator.Events.Restore.Network.{Network, flag, commit, Abstracts}
use zookeeper_k8s_operator.Events.Restore.Rounds.{
  IsFullView, none_yet, one_more, Rounds, no_round, one_round,
}
use zookeeper_k8s_operator.Events.Restore.Rounds.Finish.{rounds_finish}

abbrev single : Databag → Databag → Network
single app own = record { app_data = app; units = own ∷ [] }

abbrev view : Databag → Databag → ClusterState
view app own = record (two_units app own []) { peers = [] }

view-IsFullView : (app own : Databag) → IsFullView (single app own) 0 (view app own)
view-IsFullView app own = record {
  view = record { related = refl; app = refl; own = refl; others = others app own };
  known = λ k d there. cc;
}
  where
    others :
        (app own : Databag) (j : ℕ) (d : Databag)
        → j ≢ 0
        → get_elem? (single app own).units j ≡ some d
        → (k : ℕ) × (get_elem? (map (λ server. server.relation_data) (view app own).peers) k
            ≡ some d)
    others app own zero d h e = absurd (h refl)
    others app own (suc j) d h e = cc

-- the container is away once the restore is over
abbrev answers : Handler → Observed
answers cluster_handler = record (observed true) { container_can_connect = false }
answers _ = storing true

abbrev start : Network
start = single (("id-to-restore", "b1") ∷ []) []

abbrev left : Databag → Databag → ClusterState
left app own =
    (run (hook_calls [] answers cluster_relation_changed []) (charm (view app own))).1.state

abbrev app_after : Databag → Databag → Databag
app_after app own = (cluster (left app own)).relation_data

abbrev own_after : Databag → Databag → Databag
own_after app own = (unit_server (left app own)).relation_data

-- one more hook of the unit
extend :
    {n : ℕ} {app own : Databag}
    → Rounds 0 start n (single app own)
    → (run (hook_calls [] answers cluster_relation_changed []) (charm (view app own))).0 ≡ ok tt
    → Rounds 0 start (suc n) (single (app_after app own) (own_after app own))
unfolding commit
extend {n} {app} {own} rounds returned = one_round rounds fair (
    one_more none_yet (record {
      deferred = [];
      emitted = [];
      answers = answers;
      before = charm (view app own);
      sees = view-IsFullView app own;
      deferred_others = refl;
      emitted_others = refl;
      leads = refl;
      returns = returned;
      leaves = refl;
    }))
  where
    fair : (j : ℕ) → j < 1 → any (λ i. i == j) (0 ∷ []) ≡ true
    fair zero h = refl
    fair (suc j) h = absurd (omega (arith, h))

abbrev app_of : String → String → Databag
app_of id told = ("id-to-restore", id) ∷ ("restore-instruction", told) ∷ []

abbrev own_of : String → Databag
own_of step = ("restore-progress", step) ∷ []

five_rounds : Rounds 0 start 5 (single [] (own_of "clean"))
unfolding run hook_calls handle observers restore_event_dispatch on_cluster_relation_changed
    is_restore_in_progress restore_instruction restore_progress get update dispatch_step update_acls
    is_next_restore_step_possible maybe_progress_step payload clients servers Databag.update
    update_client_data ready all_units_quorum Models.Server.quorum Models.App.quorum
    switching_encryption all_units_unified all_units_related stable
five_rounds =
    let stopped : Rounds 0 start 1 (single (app_of "b1" "stop") (own_of "stop")) =
      extend no_round refl in
    let restored : Rounds 0 start 2 (single (app_of "b1" "restore") (own_of "restore")) =
      extend stopped refl in
    let restarted : Rounds 0 start 3 (single (app_of "b1" "restart") (own_of "restart")) =
      extend restored refl in
    let cleaned : Rounds 0 start 4 (single (app_of "b1" "clean") (own_of "clean")) =
      extend restarted refl in
    extend cleaned refl

-- the unit forgets its progress, and nothing is left to do
nine_rounds : Rounds 0 start 9 (single [] [])
unfolding run hook_calls handle observers restore_event_dispatch on_cluster_relation_changed
    is_restore_in_progress restore_instruction restore_progress get update Databag.update
    reset_progress
nine_rounds =
    let six : Rounds 0 start 6 (single [] []) = extend five_rounds refl in
    let seven : Rounds 0 start 7 (single [] []) = extend six refl in
    let eight : Rounds 0 start 8 (single [] []) = extend seven refl in extend eight refl

abbrev begun : Flow
begun = record { under_way = true; instruction = not_started; progress = not_started ∷ [] }

start-Abstracts : Abstracts start begun
unfolding truthy get_or get step_of_value
start-Abstracts = record { under_way = refl; instruction = refl; progress = refl }

rounds_finish_example : flag (single [] []).app_data ≡ false
rounds_finish_example =
    rounds_finish 0 start-Abstracts (λ on. (refl, tt)) (omega arith) nine_rounds (omega arith)
