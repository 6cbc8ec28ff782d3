-- ===== src/Quorum/Acls/Grants.antt =====
-- The access rights that `update_acls` of src/managers/quorum.py gives.
use mathlib.Core.List.Memᴰ as Mem
use zookeeper_k8s_operator.Base.{
  ℕ, String, ◌≡◌, refl, ◌↔◌, ◌⊎◌, inl, inr, Bool, true, false, Bool-cases, Option, List, [], ◌∷◌,
  Mem, Outcome, Error, ok, raised, if◌then◌else◌,
}
use zookeeper_k8s_operator.Text.{truthy}
use zookeeper_k8s_operator.Models.Client.{ZkClient, database}
use zookeeper_k8s_operator.State.Endpoints.{clients}
use zookeeper_k8s_operator.Charm.{Charm, Acl, Observed, Effect, set_acls, create_znode}
use zookeeper_k8s_operator.Charm.Monad.{M, ◌>>=◌, done, act, lift}
use zookeeper_k8s_operator.Charm.Monad.Adds.{
  Adds, Adds-iff, Adds-done, Adds-act, Adds-then, Adds-lift_bind,
}
use zookeeper_k8s_operator.Quorum.{str_mem}
use zookeeper_k8s_operator.Quorum.Acls.{
  acl_of, is_broken, znode_call, set_acls_of, update_client_acls, one_client, update_all_acls,
  update_acls,
}

-- The client's chroot and the znodes that the quorum's leader lists below it.
abbrev pub InChroot : Observed → ZkClient → String → Type 0
InChroot o client path =
    (path ≡ database client)
    ⊎ ((nodes : List String) × (o.zk.leader_znodes (database client) ≡ ok nodes) × Mem path nodes)

-- The client asks for these rights on this path: it has a database, and its relation is not the one
-- that breaks.
pub record Asks (o : Observed) (broken : Option ℕ) (path : String) (acl : Acl) (client : ZkClient)
    : Type 0 where
  pub named : truthy (database client) ≡ true
  pub related : is_broken broken client ≡ false
  pub rights : acl ≡ acl_of client
  pub within : InChroot o client path

module _ (o : Observed) (path : String) (acl : Acl) where
  znode_call-Adds : (f : Effect) → Adds (set_acls path acl) (set_acls path acl ≡ f) (znode_call o f)
  unfolding znode_call
  znode_call-Adds f = Adds-lift_bind (o.zk.znode_call f) (λ _. act f) (λ a e. Adds-act f)

  set_acls_iff :
      (node : String) (given : Acl)
      → (set_acls path acl ≡ set_acls node given) ↔ ((path ≡ node) × (acl ≡ given))
  set_acls_iff node given = (λ e. (cc, cc), λ h. rw (h.0, h.1) refl)

  set_acls_of-Adds :
      (given : Acl) (nodes : List String)
      → Adds (set_acls path acl) ((acl ≡ given) × Mem path nodes) (set_acls_of o given nodes)
  unfolding set_acls_of
  set_acls_of-Adds given [] = Adds-iff (λ p. absurd p, λ h. absurd (Mem.not-nil h.1)) Adds-done
  set_acls_of-Adds given (node ∷ nodes) =
      Adds-iff (there, back)
        (Adds-then (znode_call-Adds (set_acls node given)) (set_acls_of-Adds given nodes))
    where
      there :
          (set_acls path acl ≡ set_acls node given) ⊎ ((acl ≡ given) × Mem path nodes)
          → (acl ≡ given) × Mem path (node ∷ nodes)
      there (inl e) = let h = (set_acls_iff node given).0 e in (h.1, Mem.head h.0)
      there (inr h) = (h.0, Mem.tail h.1)

      back :
          (acl ≡ given) × Mem path (node ∷ nodes)
          → (set_acls path acl ≡ set_acls node given) ⊎ ((acl ≡ given) × Mem path nodes)
      back h = elim (Mem.cases_cons h.1) [
        | inl e ↦ inl ((set_acls_iff node given).1 (e, h.0))
        | inr m ↦ inr (h.0, m)
      ]

  -- a chroot that is not there yet is created first
  created-Adds :
      (there : Bool) (node : String) (given : Acl)
      → Adds (set_acls path acl) ⊥ (if there then done else znode_call o (create_znode node given))
  created-Adds true node given = Adds-done
  created-Adds false node given =
      Adds-iff (λ e. other e, λ h. absurd h) (znode_call-Adds (create_znode node given))
    where
      other : set_acls path acl ≡ create_znode node given → ⊥
      other e = cc

  below-Adds :
      (client : ZkClient)
      → Adds
          (set_acls path acl)
          ((acl ≡ acl_of client)
            × ((nodes : List String) × (o.zk.leader_znodes (database client) ≡ ok nodes)
                × Mem path nodes))
          (lift (o.zk.leader_znodes (database client)) >>= set_acls_of o (acl_of client))
  below-Adds client =
      Adds-lift_bind (o.zk.leader_znodes (database client)) (set_acls_of o (acl_of client))
        (λ nodes listed.
          Adds-iff
            (λ h. (h.0, (nodes, listed, h.1)), λ h. (h.0, rw (same_nodes _ h.1.1 listed) at h.1.2))
            (set_acls_of-Adds (acl_of client) nodes))
    where
      same_nodes : {a b : List String} (r : Outcome (List String)) → r ≡ ok a → r ≡ ok b → a ≡ b
      same_nodes r h k = cc

  update_client_acls-Adds :
      (chroots : List String) (client : ZkClient)
      → Adds
          (set_acls path acl)
          ((acl ≡ acl_of client) × InChroot o client path)
          (update_client_acls o chroots client)
  unfolding update_client_acls
  update_client_acls-Adds chroots client =
      Adds-iff (there, back)
        (Adds-then
          (created-Adds (str_mem (database client) chroots) (database client) (acl_of client))
          (Adds-then (znode_call-Adds (set_acls (database client) (acl_of client)))
            (below-Adds client)))
    where
      there :
          ⊥
            ⊎ ((set_acls path acl ≡ set_acls (database client) (acl_of client))
                ⊎ ((acl ≡ acl_of client)
                    × ((nodes : List String) × (o.zk.leader_znodes (database client) ≡ ok nodes)
                        × Mem path nodes)))
          → (acl ≡ acl_of client) × InChroot o client path
      there (inl h) = absurd h
      there (inr (inl e)) =
          let h = (set_acls_iff (database client) (acl_of client)).0 e in (h.1, inl h.0)
      there (inr (inr h)) = (h.0, inr h.1)

      back :
          (acl ≡ acl_of client) × InChroot o client path
          → ⊥
            ⊎ ((set_acls path acl ≡ set_acls (database client) (acl_of client))
                ⊎ ((acl ≡ acl_of client)
                    × ((nodes : List String) × (o.zk.leader_znodes (database client) ≡ ok nodes)
                        × Mem path nodes)))
      back h = elim (h.1) [
        | inl e ↦ inr (inl ((set_acls_iff (database client) (acl_of client)).1 (e, h.0)))
        | inr below ↦ inr (inr (h.0, below))
      ]

  one_client-Adds :
      (broken : Option ℕ) (chroots : List String) (client : ZkClient)
      → Adds
          (set_acls path acl)
          (Asks o broken path acl client)
          (one_client o broken chroots client)
  unfolding one_client
  one_client-Adds broken chroots client = elim (Bool-cases (truthy (database client))) [
    | inr unnamed ↦ rw unnamed (Adds-iff (λ p. absurd p, λ h. clash h.named unnamed) Adds-done)
    | inl named ↦ elim (Bool-cases (is_broken broken client)) [
      | inl breaks ↦
          rw (named, breaks) (Adds-iff (λ p. absurd p, λ h. clash breaks h.related) Adds-done)
      | inr related ↦
          rw (named, related)
            (Adds-iff
              (
                λ h. record { named = named; related = related; rights = h.0; within = h.1 },
                λ h. (h.rights, h.within),
              )
              (update_client_acls-Adds chroots client))
    ]
  ]
    where
      clash : {b : Bool} → b ≡ true → b ≡ false → ⊥
      clash h k = cc

  update_all_acls-Adds :
      (broken : Option ℕ) (chroots : List String) (all_clients : List ZkClient)
      → Adds
          (set_acls path acl)
          ((client : ZkClient) × Mem client all_clients × Asks o broken path acl client)
          (update_all_acls o broken chroots all_clients)
  unfolding update_all_acls
  update_all_acls-Adds broken chroots [] =
      Adds-iff (λ p. absurd p, λ h. absurd (Mem.not-nil h.1)) Adds-done
  update_all_acls-Adds broken chroots (first ∷ rest) =
      Adds-iff (there, back)
        (Adds-then (one_client-Adds broken chroots first)
          (update_all_acls-Adds broken chroots rest))
    where
      there :
          Asks o broken path acl first
            ⊎ ((client : ZkClient) × Mem client rest × Asks o broken path acl client)
          → (client : ZkClient) × Mem client (first ∷ rest) × Asks o broken path acl client
      there (inl h) = (first, Mem.head refl, h)
      there (inr h) = (h.0, Mem.tail h.1, h.2)

      back :
          (client : ZkClient) × Mem client (first ∷ rest) × Asks o broken path acl client
          → Asks o broken path acl first
            ⊎ ((client : ZkClient) × Mem client rest × Asks o broken path acl client)
      back h = elim (Mem.cases_cons h.1) [ inl e ↦ inl (rw e at h.2) | inr m ↦ inr (h.0, m, h.2) ]

-- Where the update of the access rights returns: rights on a path were set in the hook exactly if they
-- were set before it, or they are those that a client with a database asks for, whose relation is not
-- the one that breaks, and the path is its chroot or one that the quorum lists below it.
pub update_acls-Asks :
    (o : Observed) (broken : Option ℕ) (c : Charm) (path : String) (acl : Acl)
    → (update_acls o broken c).0 ≡ ok tt
    → Mem (set_acls path acl) (update_acls o broken c).1.effects ↔ (
        Mem (set_acls path acl) c.effects
        ⊎ ((client : ZkClient) × Mem client (clients c.state) × Asks o broken path acl client))
unfolding update_acls
update_acls-Asks o broken c path acl returned =
    on_listing o broken c path acl (o.zk.leader_znodes "/") returned
  where
    each : Observed → Option ℕ → List String → M (Unit {0})
    each o broken chroots d = update_all_acls o broken chroots (clients d.state) d

    clash : {y : Outcome (Unit {0})} (e : Error) → y ≡ raised e → y ≡ ok tt → ⊥
    clash e h k = cc

    on_listing :
        (o : Observed) (broken : Option ℕ) (c : Charm) (path : String) (acl : Acl)
        (r : Outcome (List String))
        → ((lift r >>= each o broken) c).0 ≡ ok tt
        → Mem (set_acls path acl) ((lift r >>= each o broken) c).1.effects ↔ (
            Mem (set_acls path acl) c.effects
            ⊎ ((client : ZkClient) × Mem client (clients c.state) × Asks o broken path acl client))
    on_listing o broken c path acl (ok chroots) h =
        (update_all_acls-Adds o path acl broken chroots (clients c.state)).at c h
    on_listing o broken c path acl (raised e) h = absurd (clash e refl h)
