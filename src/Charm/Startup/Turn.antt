-- ===== src/Charm/Startup/Turn.antt =====
-- When `init_server` of src/charm.py starts the service.
use zookeeper_k8s_operator.Base.{
  ◌≡◌, refl, ◌⊎◌, inl, inr, true, false, Bool-cases, Option, Outcome, ok, raised,
}
use zookeeper_k8s_operator.Models.Server.{ZkServer}
use zookeeper_k8s_operator.State.{ClusterState, unit_server, all_units_related}
use zookeeper_k8s_operator.State.Turns.{next_server}
use zookeeper_k8s_operator.Charm.{Charm, Observed}
use zookeeper_k8s_operator.Charm.Startup.{no_credentials, is_other, start_server, init_server}

-- Only the unit's status has changed.
pub record IsUntouched (c d : Charm) : Type 0 where
  pub state : d.state ≡ c.state
  pub files : d.files ≡ c.files
  pub effects : d.effects ≡ c.effects

-- The guards of the function have passed.
pub record MayStart (s : ClusterState) : Type 0 where
  pub next : Option ZkServer
  pub credentials : no_credentials s ≡ false
  pub related : all_units_related s ≡ true
  pub is_next : next_server s ≡ ok next
  pub own_turn : is_other next (unit_server s) ≡ false

-- Either the function changes nothing but the unit's status, or the passwords are set, all units are
-- related, it is no other unit's turn, and the function starts the server.
pub init_server-cases :
    (o : Observed) (c : Charm)
    → IsUntouched c (init_server o c).1 ⊎ (MayStart c.state × (init_server o c ≡ start_server o c))
unfolding init_server
init_server-cases o c = elim (Bool-cases (no_credentials c.state)) [
  | inl missing ↦ inl (rw missing (record { state = refl; files = refl; effects = refl }))
  | inr set ↦ elim (Bool-cases (all_units_related c.state)) [
    | inr partial ↦ inl (rw (set, partial) (record { state = refl; files = refl; effects = refl }))
    | inl related ↦ on_turn set related (next_server c.state) refl
  ]
]
  where
    waits :
        no_credentials c.state ≡ false
        → all_units_related c.state ≡ true
        → (x : Option ZkServer) → next_server c.state ≡ ok x
        → IsUntouched c (init_server o c).1
          ⊎ (MayStart c.state × (init_server o c ≡ start_server o c))
    waits set related x e = elim (Bool-cases (is_other x (unit_server c.state))) [
      | inl other ↦
          inl (rw (set, related, e, other) (record { state = refl; files = refl; effects = refl }))
      | inr own ↦ inr (
        record { next = x; credentials = set; related = related; is_next = e; own_turn = own },
        rw (set, related, e, own) refl,
      )
    ]

    on_turn :
        no_credentials c.state ≡ false
        → all_units_related c.state ≡ true
        → (r : Outcome (Option ZkServer)) → next_server c.state ≡ r
        → IsUntouched c (init_server o c).1
          ⊎ (MayStart c.state × (init_server o c ≡ start_server o c))
    on_turn set related (raised err) e =
        inl (rw (set, related, e) (record { state = refl; files = refl; effects = refl }))
    on_turn set related (ok x) e = waits set related x e
