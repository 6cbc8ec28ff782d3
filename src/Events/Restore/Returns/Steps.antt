-- ===== src/Events/Restore/Returns/Steps.antt =====
-- When the steps of a restore return: src/events/backup.py.
use zookeeper_k8s_operator.Base.{
  ℕ, String, ◌≡◌, ◌<◌, refl, ap, ◌∙◌, Bool, true, false, inl, inr, Bool-cases, List, [], ◌∷◌, ok,
  raised, Error, Outcome, ltb, ◌==◌, ==_iff, arith,
}
use zookeeper_k8s_operator.Literals.{
  RestoreStep, not_started, stop_workflow, restore, restart, clean,
}
use zookeeper_k8s_operator.State.{ClusterState, cluster}
use zookeeper_k8s_operator.Models
use zookeeper_k8s_operator.Backups.Files.{
  Call, clearing_calls, fetching_calls, cleanup_calls, bucket_path,
}
use zookeeper_k8s_operator.Charm.{Charm, Observed, Effect, on_disk, stop_service, restart_service}
use zookeeper_k8s_operator.Charm.Monad.{M, ◌>>=◌, ◌>>◌, lift, update_unit}
use zookeeper_k8s_operator.Events.Backup.{s3_credentials}
use zookeeper_k8s_operator.Events.Restore.{
  dispatch_step, stop_workflow_step, download_and_restore, restart_workflow, record_progress, call,
  run_calls, restore_snapshot, clean_up, cleaning,
}
use zookeeper_k8s_operator.Events.Restore.Records.{run_calls-KeepsState}
use zookeeper_k8s_operator.Events.Restore.Retry.{cleaning_lem}

-- One of three health checks passes, and none before it raises.
abbrev pub Recovers : Observed → Type 0
Recovers o =
    (k : ℕ) × (k < 3) × (o.healthy_at k ≡ ok true) × ((j : ℕ) → j < k → o.healthy_at j ≡ ok false)

-- The calls of the container and of the unit's disk are answered without an exception.
abbrev pub Answers : Observed → Type 0
Answers o = (e : Effect) → o.answer_to e ≡ ok tt

pub then-returns :
    (m n : M (Unit {0})) (c : Charm)
    → (m c).0 ≡ ok tt
    → (n (m c).1).0 ≡ ok tt
    → ((m >> n) c).0 ≡ ok tt
then-returns m n c first second = rw first second

module _ (o : Observed) (answers : Answers o) where
  call-returns : (e : Effect) (c : Charm) → (call o e c).0 ≡ ok tt
  call-returns e c = unfold call in rw (answers e) refl

  run_calls-returns : (calls : List Call) (c : Charm) → (run_calls o calls c).0 ≡ ok tt
  unfolding run_calls
  run_calls-returns [] c = refl
  run_calls-returns (x ∷ calls) c =
      then-returns (call o (on_disk x)) (run_calls o calls) c (call-returns (on_disk x) c)
        (run_calls-returns calls _)

  restore_snapshot-returns :
      (id : String) {path : String} (c : Charm)
      → bucket_path (s3_credentials o c.state) ≡ ok path
      → (restore_snapshot o id c).0 ≡ ok tt
  restore_snapshot-returns id {path} c stored =
      unfold restore_snapshot in
      then-returns (run_calls o clearing_calls) fetch c (run_calls-returns clearing_calls c) (
        fetches (run_calls o clearing_calls c).1 (
          ap (λ (s : ClusterState). bucket_path (s3_credentials o s))
            ((run_calls-KeepsState o clearing_calls).at c)
          ∙ stored))
    where
      fetch : M (Unit {0})
      fetch d =
          (lift (bucket_path (s3_credentials o d.state)) >>= λ backups_path.
          run_calls o (fetching_calls backups_path id))
            d

      fetches : (d : Charm) → bucket_path (s3_credentials o d.state) ≡ ok path → (fetch d).0 ≡ ok tt
      fetches d found = rw found (run_calls-returns (fetching_calls path id) d)

  -- no check raises before one passes
  no_raise :
      Recovers o
      → (k : ℕ) (e : Error) → ((j : ℕ) → j < k → o.healthy_at j ≡ ok false)
      → o.healthy_at k ≡ raised e
      → ⊥
  no_raise (m, below, up, before) k e down broken = elim (Bool-cases (ltb k m)) [
    | inl sooner ↦ differ_false (before k (ground (arith, sooner))) broken
    | inr not_sooner ↦ elim (Bool-cases (m == k)) [
      | inl same ↦ differ_true (ap o.healthy_at ((==_iff m k).0 same)) up broken
      | inr other ↦ opposite up (down m (ground (arith, not_sooner, other)))
    ]
  ]
    where
      differ_false : {r : Outcome Bool} → r ≡ ok false → r ≡ raised e → ⊥
      differ_false h x = cc

      differ_true : {r q : Outcome Bool} → r ≡ q → r ≡ ok true → q ≡ raised e → ⊥
      differ_true h x y = cc

      opposite : {r : Outcome Bool} → r ≡ ok true → r ≡ ok false → ⊥
      opposite h x = cc

  cleaning-returns : Recovers o → (c : Charm) → (cleaning o c).0 ≡ ok tt
  cleaning-returns up c = elim (cleaning_lem o c) [
    | inl (k, below, down, inl (found, ends)) ↦ rw ends (
        unfold clean_up in
        then-returns (run_calls o cleanup_calls) (record_progress clean) c
          (run_calls-returns cleanup_calls c) (unfold record_progress update_unit in refl))
    | inl (k, below, down, inr (e, broken, ends)) ↦ absurd (no_raise up k e down broken)
    | inr (down, ends) ↦ absurd (never up down)
  ]
    where
      never : Recovers o → ((j : ℕ) → j < 3 → o.healthy_at j ≡ ok false) → ⊥
      never (m, below, up, before) down = opposite up (down m below)
        where
          opposite : {r : Outcome Bool} → r ≡ ok true → r ≡ ok false → ⊥
          opposite h x = cc

  pub dispatch_step-returns :
      {path : String} (c : Charm) (i p : RestoreStep)
      → Recovers o
      → bucket_path (s3_credentials o c.state) ≡ ok path
      → (dispatch_step o i p c).0 ≡ ok tt
  unfolding dispatch_step
  dispatch_step-returns c stop_workflow not_started up stored =
      unfold stop_workflow_step record_progress update_unit in
      then-returns (call o stop_service) (record_progress stop_workflow) _
        (call-returns stop_service _) refl
  dispatch_step-returns c restore stop_workflow up stored =
      unfold download_and_restore record_progress update_unit in
      then-returns (restore_snapshot o (Models.App.id_to_restore (cluster c.state)))
        (record_progress restore) c
        (restore_snapshot-returns (Models.App.id_to_restore (cluster c.state)) c stored) refl
  dispatch_step-returns c restart restore up stored =
      unfold restart_workflow record_progress update_unit in
      then-returns (call o restart_service) (record_progress restart) c
        (call-returns restart_service c) refl
  dispatch_step-returns c clean restart up stored = cleaning-returns up c
  dispatch_step-returns c _ _ up stored = refl
