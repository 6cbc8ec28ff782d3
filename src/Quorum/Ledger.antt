-- ===== src/Quorum/Ledger.antt =====
-- The record of the quorum in the application's databag: `update_cluster` and `_get_updated_servers` of
-- src/managers/quorum.py, and `added_unit_ids` of src/core/models.py.
use zookeeper_k8s_operator.Base.{
  ℕ, suc, String, ◌≡◌, refl, ap, ◌∙◌, Bool, ◌==◌, ◌-◌, true, false, none, some, List, [], ◌++◌, all,
  eq_iff, if◌then◌else◌, ok, arith, >>=-returns,
}
use zookeeper_k8s_operator.Text.{str, sorted, all-sorted, any-sorted, truthy}
use zookeeper_k8s_operator.Databag.{Databag, get}
use zookeeper_k8s_operator.Databag.Update.{overlay}
use zookeeper_k8s_operator.Models.App.{is_added, update_keys}
use zookeeper_k8s_operator.Models.App.Update.{get-update_keys}
use zookeeper_k8s_operator.Charm.{ZkAdmin}
use zookeeper_k8s_operator.Quorum.{
  server_number, unit_key, note_servers, get_updated_servers, str_mem, set_minus, Reconfigured,
  reconfigure,
}
use zookeeper_k8s_operator.Quorum.Members.{
  is_numbered, IsFaithful, reconfigure-Reaches, all-append, all-minus, any-append, any-minus,
}
use zookeeper_k8s_operator.Quorum.Notes.{names, is_alone, verdict, after_notes, note_servers-IsDict}

-- What the library makes of the members, and the strings in question.
module _ (zk : ZkAdmin) (present wanted : List String) (law : IsFaithful zk)
    (members : zk.server_members ≡ ok present) where
  gone : List String
  gone = set_minus present wanted

  new : List String
  new = sorted (set_minus wanted (set_minus present gone))

  noted :
      {r : Reconfigured}
      → reconfigure zk wanted ≡ ok r
      → note_servers new gone (new ++ gone) [] ≡ ok r.updated
  unfolding reconfigure get_updated_servers gone new
  noted {r} returned =
      let (updated, first, last) = >>=-returns (note_servers new gone (new ++ gone) []) _ (
        rw (members, law.removes present gone, law.adds (set_minus present gone) new) at
          returned) in
      first ∙ ap ok (same last)
    where
      same : {a b : Reconfigured} → ok a ≡ ok b → a.updated ≡ b.updated
      same e = cc

  module _ (key s : String) (own : names key s ≡ true) (alone : all (is_alone key s) present ≡ true)
      (alone_wanted : all (is_alone key s) wanted ≡ true) where
    recorded :
        {r : Reconfigured}
        → reconfigure zk wanted ≡ ok r
        → get key r.updated ≡ (
            if str_mem s wanted
            then if str_mem s present then none else some "added"
            else if str_mem s present
            then some "removed"
            else none)
    unfolding verdict str_mem gone new get
    recorded {r} returned =
        after_notes new gone key s own (new ++ gone) [] (noted returned) all_alone
        ∙ ground (
          arith,
          any-append s new gone,
          any-sorted s (set_minus wanted (set_minus present gone)),
          any-minus s wanted (set_minus present gone),
          any-minus s present gone,
          any-minus s present wanted,
        )
      where
        all_alone : all (is_alone key s) (new ++ gone) ≡ true
        all_alone =
            unfold new gone in
            all-append (is_alone key s) new gone
              (all-sorted (is_alone key s) (set_minus wanted (set_minus present gone))
                (all-minus (is_alone key s) wanted (set_minus present gone) alone_wanted))
              (all-minus (is_alone key s) present wanted alone)

unit_key-suc : (n : ℕ) → unit_key (suc n) ≡ str n
unfolding unit_key
unit_key-suc n = rw (positive n, before n) refl
  where
    positive : (n : ℕ) → (suc n == 0) ≡ false
    positive n = ground arith

    before : (n : ℕ) → suc n - 1 ≡ n
    before n = omega arith

agree :
    (u app : Databag) (n : ℕ) (w p : Bool) {m : Bool}
    → get (str n) (update_keys u app) ≡ overlay (get (str n) u) (get (str n) app)
    → get (str n) u
      ≡ (if w then if p then none else some "added" else if p then some "removed" else none)
    → m ≡ w
    → is_added app n ≡ p
    → is_added (update_keys u app) n ≡ m
unfolding is_added overlay truthy
agree u app n w p read entry same before = ground (arith, read, entry, same, before)

-- The update of the quorum returns, and in the application's data the unit `n` then counts as added
-- exactly if its server `s` is a member.
pub record Agrees (zk : ZkAdmin) (wanted : List String) (app : Databag) (n : ℕ) (s : String)
    : Type 0 where
  pub result : Reconfigured
  pub returns : reconfigure zk wanted ≡ ok result
  pub agrees : is_added (update_keys result.updated app) n ≡ str_mem s result.members

-- With a client that removes and adds what it is asked to, and servers that are all named by a
-- number, of which no other present or wanted one has the number of `s`: if the unit of `s` counted as
-- added exactly if `s` was a member, then the update of the quorum returns, and the same holds after it.
pub reconfigure-Agrees :
    (zk : ZkAdmin) (present wanted : List String) (app : Databag) (n : ℕ) (s : String)
    → IsFaithful zk
    → zk.server_members ≡ ok present
    → all is_numbered present ≡ true
    → all is_numbered wanted ≡ true
    → server_number s ≡ some (suc n)
    → all (is_alone (str n) s) present ≡ true
    → all (is_alone (str n) s) wanted ≡ true
    → is_added app n ≡ str_mem s present
    → Agrees zk wanted app n s
reconfigure-Agrees zk present wanted app n s law members numbered numbered_wanted number alone
      alone_wanted before =
    let reached = reconfigure-Reaches zk present wanted s law members numbered numbered_wanted in
    record {
      result = reached.result;
      returns = reached.returns;
      agrees =
          agree reached.result.updated app n (str_mem s wanted) (str_mem s present)
            (get-update_keys (str n) reached.result.updated app (
              note_servers-IsDict _ _ _ [] (noted zk present wanted law members reached.returns)
                tt))
            (recorded zk present wanted law members (str n) s own alone alone_wanted
              reached.returns)
            reached.same before;
    }
  where
    own : names (str n) s ≡ true
    own = rw (number, names, unit_key-suc n) ((eq_iff (str n) (str n)).1 refl)
