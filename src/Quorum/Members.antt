-- ===== src/Quorum/Members.antt =====
-- What `update_cluster` of src/managers/quorum.py makes of the quorum.
use zookeeper_k8s_operator.Databag.{Databag}
use zookeeper_k8s_operator.Base.{
  Bool, ℕ, true, false, Option, none, some, all, String, ◌≡◌, refl, not, ◌&&◌, ◌||◌, List, [], ◌∷◌,
  ◌++◌, any, str_eq, eq_iff, ok, arith,
}
use zookeeper_k8s_operator.Text.{sorted}
use zookeeper_k8s_operator.Text.{any-sorted, all-sorted}
use zookeeper_k8s_operator.Charm.{ZkAdmin}
use zookeeper_k8s_operator.Quorum.{
  mark_server, server_number, note_server, note_servers, get_updated_servers, Reconfigured,
  reconfigure, set_minus, str_mem, get_updated_servers,
}

pub any-append :
    (x : String) (xs ys : List String)
    → any (str_eq x) (xs ++ ys) ≡ any (str_eq x) xs || any (str_eq x) ys
any-append x [] ys = refl
any-append x (y ∷ xs) ys = ground (arith, any-append x xs ys)

pub any-minus :
    (x : String) (xs ys : List String)
    → any (str_eq x) (set_minus xs ys) ≡ any (str_eq x) xs && not (any (str_eq x) ys)
unfolding set_minus str_mem
any-minus x [] ys = refl
any-minus x (y ∷ xs) ys = ground (arith, eq_iff x y, any-minus x xs ys)

-- a string that names a server by its number
abbrev pub is_numbered : String → Bool
is_numbered s = elim (server_number s) [ none ↦ false | some n ↦ true ]

module _ (p : String → Bool) where
  pub all-append :
      (xs ys : List String) → all p xs ≡ true → all p ys ≡ true → all p (xs ++ ys) ≡ true
  all-append [] ys h k = k
  all-append (x ∷ xs) ys h k = ground (arith, all-append xs ys)

  pub all-minus : (xs ys : List String) → all p xs ≡ true → all p (set_minus xs ys) ≡ true
  unfolding set_minus
  all-minus [] ys h = refl
  all-minus (x ∷ xs) ys h = ground (arith, all-minus xs ys)

note_server-returns :
    (added removed : List String) (s : String) (d : Databag)
    → is_numbered s ≡ true
    → (e : Databag) × (note_server added removed s d ≡ ok e)
unfolding note_server
note_server-returns added removed s d h = by_number (server_number s) refl
  where
    by_number :
        (n : Option ℕ)
        → server_number s ≡ n
        → (e : Databag) × (note_server added removed s d ≡ ok e)
    by_number none q = absurd (ground (arith, q, h))
    by_number (some n) q = (mark_server added removed s d n, rw (note_server, q) refl)

note_servers-returns :
    (added removed l : List String) (d : Databag)
    → all is_numbered l ≡ true
    → (e : Databag) × (note_servers added removed l d ≡ ok e)
unfolding note_servers
note_servers-returns added removed [] d h = (d, refl)
note_servers-returns added removed (s ∷ l) d h =
    let head = note_server-returns added removed s d (ground (arith, h)) in
    let tail = note_servers-returns added removed l head.0 (ground (arith, h)) in
    (tail.0, rw head.1 tail.1)

-- The client library's documented behaviour: it removes the members it is given, and adds those.
pub record IsFaithful (zk : ZkAdmin) : Type 0 where
  pub removes : (present gone : List String) → zk.remove present gone ≡ ok (set_minus present gone)
  pub adds : (present new : List String) → zk.add present new ≡ ok (present ++ new)

pub record Reaches (zk : ZkAdmin) (wanted : List String) (x : String) : Type 0 where
  pub result : Reconfigured
  pub returns : reconfigure zk wanted ≡ ok result
  pub same : str_mem x result.members ≡ str_mem x wanted

-- With a client that removes and adds what it is asked to, and servers that are all named by a
-- number, the update of the quorum returns, and afterwards a server is a member exactly when it is one
-- of the wanted servers.
pub reconfigure-Reaches :
    (zk : ZkAdmin) (present wanted : List String) (x : String)
    → IsFaithful zk
    → zk.server_members ≡ ok present
    → all is_numbered present ≡ true
    → all is_numbered wanted ≡ true
    → Reaches zk wanted x
reconfigure-Reaches zk present wanted x law members named named_wanted = record {
  result = record { members = left ++ new; updated = noted.0 };
  returns =
      unfold reconfigure get_updated_servers in
      rw (members, law.removes present gone, law.adds left new, noted.1) refl;
  same =
      unfold str_mem in
      ground (
        arith,
        any-append x left new,
        any-minus x present gone,
        any-minus x present wanted,
        any-sorted x (set_minus wanted left),
        any-minus x wanted left,
      );
}
  where
    gone : List String
    gone = set_minus present wanted

    left : List String
    left = set_minus present gone

    new : List String
    new = sorted (set_minus wanted left)

    noted : (e : Databag) × (note_servers new gone (new ++ gone) [] ≡ ok e)
    noted = note_servers-returns new gone (new ++ gone) [] (
        all-append is_numbered new gone
          (all-sorted is_numbered (set_minus wanted left)
            (all-minus is_numbered wanted left named_wanted))
          (all-minus is_numbered present wanted named))
