-- ===== src/Events/Restore/Records.antt =====
-- The steps of a restore that record their progress last: src/events/backup.py.
use zookeeper_k8s_operator.Base.{
  arith, ℕ, zero, suc, String, ◌≡◌, refl, ap, ◌∙◌, Bool, true, false, List, [], ◌∷◌, some, Outcome,
  ok, raised, not, if◌then◌else◌,
}
use zookeeper_k8s_operator.Literals.{
  RestoreStep, step_value, clean, restore, stop_workflow, restart,
}
use zookeeper_k8s_operator.State.{ClusterState, cluster}
use zookeeper_k8s_operator.Backups.Files.{Call}
use zookeeper_k8s_operator.Charm.{Charm, Observed, Effect, on_disk}
use zookeeper_k8s_operator.Charm.Monad.{M, ◌>>=◌, ◌>>◌, lift, update_unit, write_unit}
use zookeeper_k8s_operator.Charm.Monad.Keeps.{KeepsState, KeepsState-then, keeps_rules}
use zookeeper_k8s_operator.Events.Restore.{
  record_progress, call, run_calls, restore_snapshot, stop_workflow_step, download_and_restore,
  restart_workflow, clean_up, cleaning_from, cleaning,
}
use zookeeper_k8s_operator.Events.Restore.Written.{progress_of, progress-write_unit}

-- Whether the step returns or raises, the application's data are as before, and in a related unit a step
-- that returns has recorded its progress.
pub record Records (step : RestoreStep) {A : Type 0} (m : M A) : Type 0 where
  pub app : (c : Charm) → cluster (m c).1.state ≡ cluster c.state
  pub own :
      (c : Charm) {a : A}
      → c.state.peer_relation ≡ true
      → (m c).0 ≡ ok a
      → progress_of (m c).1 ≡ some step

pub call-KeepsState : (o : Observed) (e : Effect) → KeepsState (call o e)
unfolding call
call-KeepsState o e = search keeps_rules

pub run_calls-KeepsState : (o : Observed) (calls : List Call) → KeepsState (run_calls o calls)
unfolding run_calls
run_calls-KeepsState o [] = search keeps_rules
run_calls-KeepsState o (c ∷ calls) =
    KeepsState-then _ _ (call-KeepsState o (on_disk c)) (run_calls-KeepsState o calls)

pub restore_snapshot-KeepsState : (o : Observed) (id : String) → KeepsState (restore_snapshot o id)
unfolding restore_snapshot
restore_snapshot-KeepsState o id = search (keeps_rules, run_calls-KeepsState) depth 12

module _ {step : RestoreStep} {A B : Type 0} where
  app_after :
      (f : A → M B)
      → ((a : A) → Records step (f a))
      → (r : Outcome A) (d : Charm) → cluster ((lift r >>= f) d).1.state ≡ cluster d.state
  app_after f kf (ok a) d = (kf a).app d
  app_after f kf (raised e) d = refl

  own_after :
      (f : A → M B)
      → ((a : A) → Records step (f a))
      → (r : Outcome A) (d : Charm) {b : B} → d.state.peer_relation ≡ true
      → ((lift r >>= f) d).0 ≡ ok b
      → progress_of ((lift r >>= f) d).1 ≡ some step
  own_after f kf (ok a) d related h = (kf a).own d related h
  own_after f kf (raised e) d related h = cc

  pub Records-bind :
      (m : M A) (f : A → M B)
      → KeepsState m
      → ((a : A) → Records step (f a))
      → Records step (m >>= f)
  Records-bind m f km kf = record {
    app = λ c. app_after f kf (m c).0 (m c).1 ∙ ap cluster (km.at c);
    own = λ c related h.
        own_after f kf (m c).0 (m c).1
          (ap (λ (s : ClusterState). s.peer_relation) (km.at c) ∙ related) h;
  }

pub Records-then :
    {step : RestoreStep} (m n : M (Unit {0}))
    → KeepsState m
    → Records step n
    → Records step (m >> n)
Records-then m n km kn = Records-bind m (λ _. n) km (λ _. kn)

pub Records-if :
    {step : RestoreStep} (b : Bool) (m n : M (Unit {0}))
    → Records step m
    → Records step n
    → Records step (if b then m else n)
Records-if true m n km kn = km
Records-if false m n km kn = kn

record_progress-Records : (step : RestoreStep) → Records step (record_progress step)
unfolding record_progress update_unit
record_progress-Records step = record {
  app = λ c. same c.state;
  own = λ c related h. progress-write_unit step c.state related;
}
  where
    same :
        (s : ClusterState)
        → cluster (write_unit (("restore-progress", step_value step) ∷ []) s) ≡ cluster s
    same s = unfold write_unit in ground arith

ruleset records_rules = (
  keeps_rules, Records-bind, Records-then, Records-if, record_progress-Records, call-KeepsState,
  run_calls-KeepsState, restore_snapshot-KeepsState,
)

module _ (o : Observed) where
  pub stop_workflow_step-Records : Records stop_workflow (stop_workflow_step o)
  unfolding stop_workflow_step
  stop_workflow_step-Records = search records_rules depth 12

  pub download_and_restore-Records : Records restore (download_and_restore o)
  unfolding download_and_restore
  download_and_restore-Records = search records_rules depth 12

  pub restart_workflow-Records : Records restart (restart_workflow o)
  unfolding restart_workflow
  restart_workflow-Records = search records_rules depth 12

  clean_up-Records : Records clean (clean_up o)
  unfolding clean_up
  clean_up-Records = search records_rules depth 12

  cleaning_from-Records : (tries n : ℕ) → Records clean (cleaning_from o tries n)
  unfolding cleaning_from
  cleaning_from-Records zero n = record { app = λ c. refl; own = λ c related h. cc }
  cleaning_from-Records (suc tries) n =
      let again = cleaning_from-Records tries (suc n) in
      Records-bind _ _ (search keeps_rules) (λ healthy.
        Records-if (not healthy) (cleaning_from o tries (suc n)) (clean_up o) again
          clean_up-Records)

  pub cleaning-Records : Records clean (cleaning o)
  unfolding cleaning
  cleaning-Records = cleaning_from-Records 3 0
