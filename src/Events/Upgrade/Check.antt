-- ===== src/Events/Upgrade/Check.antt =====
-- The checks after an upgrade: `post_upgrade_check` of src/events/upgrade.py.
use zookeeper_k8s_operator.Base.{
  ap, not, ◌-◌, length, kubernetes_client_error, if◌then◌else◌, Error, Outcome, ◌+◌, ℕ, zero, suc,
  ◌≡◌, ◌∙◌, refl, ◌⊎◌, inl, inr, Bool-cases, Bool, true, false, ◌&&◌, ◌||◌, ok, raised,
  cluster_not_ready, arith,
}
use zookeeper_k8s_operator.State.{ClusterState, servers}
use zookeeper_k8s_operator.Quorum.{is_syncing}
use zookeeper_k8s_operator.Charm.{Charm, Observed}
use zookeeper_k8s_operator.Events.Upgrade.{
  pre_upgrade_check, checked_once, check_from, post_upgrade_check,
}

-- at the attempt `n` the partition is not to be set, since an upgrade is under way, or it can be
abbrev pub patched : Observed → ClusterState → ℕ → Bool
unfolding servers
patched o s n = not o.idle || o.patch_accepted n (length (servers s) - 1)

abbrev pub is_up : Outcome Bool → Bool
is_up (ok b) = b
is_up (raised e) = false

-- the attempt `n` passes: the quorum is in sync and the unit is healthy
abbrev pub passes : Observed → ClusterState → ℕ → Bool
passes o s n = patched o s n && ((is_syncing (o.zk_at n) s).passed && is_up (o.healthy_at n))

abbrev pub raised_or : Error → Outcome Bool → Error
raised_or e (ok b) = e
raised_or e (raised x) = x

-- why the attempt `n` fails
abbrev pub reason : Observed → ClusterState → ℕ → Error
reason o s n =
    if not (patched o s n)
    then kubernetes_client_error
    else if not (is_syncing (o.zk_at n) s).passed
    then cluster_not_ready
    else raised_or cluster_not_ready (o.healthy_at n)

passes_within : Observed → ClusterState → ℕ → ℕ → Bool
passes_within o s zero n = passes o s n
passes_within o s (suc tries) n = passes o s n || passes_within o s tries (suc n)

checked_once-state : (o : Observed) (c : Charm) (n : ℕ) → (checked_once o n c).1.state ≡ c.state
unfolding checked_once pre_upgrade_check
checked_once-state o c n = ground arith

checked_once-passes :
    (o : Observed) (c : Charm) (n : ℕ) → passes o c.state n ≡ true → (checked_once o n c).0 ≡ ok tt
unfolding checked_once pre_upgrade_check
checked_once-passes o c n h = ground (arith, h)

checked_once-fails :
    (o : Observed) (c : Charm) (n : ℕ)
    → passes o c.state n ≡ false
    → (checked_once o n c).0 ≡ raised (reason o c.state n)
unfolding checked_once pre_upgrade_check
checked_once-fails o c n h = ground (arith, h)

-- the last attempt's exception is raised
check_from-cases :
    (o : Observed) (tries n last : ℕ) (c : Charm) (s : ClusterState)
    → last ≡ n + tries
    → c.state ≡ s
    → ((passes_within o s tries n ≡ true) × ((check_from o tries n c).0 ≡ ok tt))
      ⊎ ((passes_within o s tries n ≡ false)
          × ((check_from o tries n c).0 ≡ raised (reason o s last)))
unfolding check_from passes_within
check_from-cases o zero n last c s here e = elim (Bool-cases (passes o s n)) [
  | inl up ↦ inl (up, checked_once-passes o c n (rw e up))
  | inr down ↦ inr (
    down,
    checked_once-fails o c n (rw e down)
        ∙ ap (λ (t : ClusterState). raised (reason o t n)) e
        ∙ ap (λ (k : ℕ). raised (reason o s k)) (omega (arith, here)),
  )
]
check_from-cases o (suc tries) n last c s here e = elim (Bool-cases (passes o s n)) [
  | inl up ↦
      let returns = checked_once-passes o c n (rw e up) in
      inl (ground (arith, up), rw (returns) refl)
  | inr down ↦
      let fails = checked_once-fails o c n (rw e down) in
      let later =
        check_from-cases o tries (suc n) last (checked_once o n c).1 s (omega (arith, here))
          (checked_once-state o c n ∙ e) in
      rw (down, fails) later
]

-- Either one of five attempts finds that the partition can be set if it is to be, the quorum in sync and
-- the unit healthy, and the check returns, or no attempt does, and the check raises the exception of the
-- fifth attempt: that the API refused, that the cluster is not ready, or what the health check raises.
pub post_upgrade_check_lem :
    (o : Observed) (c : Charm)
    → (((passes o c.state 0
            || (passes o c.state 1
                || (passes o c.state 2 || (passes o c.state 3 || passes o c.state 4))))
          ≡ true)
        × ((post_upgrade_check o c).0 ≡ ok tt))
      ⊎ (((passes o c.state 0
              || (passes o c.state 1
                  || (passes o c.state 2 || (passes o c.state 3 || passes o c.state 4))))
            ≡ false)
          × ((post_upgrade_check o c).0 ≡ raised (reason o c.state 4)))
unfolding post_upgrade_check passes_within
post_upgrade_check_lem o c = check_from-cases o 4 0 4 c c.state refl refl
