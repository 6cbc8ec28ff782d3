-- ===== src/Quorum/Keys.antt =====
-- The keys of the mapping that `update_cluster` of src/managers/quorum.py returns, and the fields of a
-- restore.
use zookeeper_k8s_operator.Base.{
  Error, other_error, if◌then◌else◌, ℕ, ◌-◌, String, ◌≡◌, refl, Bool, true, false, ◌==◌, Option,
  none, some, List, [], ◌∷◌, ◌++◌, Outcome, ok, raised, >>=-returns, Bool-cases, inl, inr, arith,
}
use zookeeper_k8s_operator.Text.{sorted}
use zookeeper_k8s_operator.Databag.{Databag, insert}
use zookeeper_k8s_operator.State.{ClusterState}
use zookeeper_k8s_operator.Charm.{ZkAdmin}
use zookeeper_k8s_operator.Models.App.Apart.{is_apart}
use zookeeper_k8s_operator.Charm.Monad.Restoring.{is_restore_key, is_apart-str}
use zookeeper_k8s_operator.Quorum.{
  unit_key, str_mem, mark_server, note_server, server_number, note_servers, get_updated_servers,
  set_minus, Reconfigured, reconfigure, update_cluster, active_server_strings, is_not_ready,
}

insert-is_apart :
    (key value : String) (d : Databag)
    → is_apart is_restore_key ((key, value) ∷ []) ≡ true
    → is_apart is_restore_key d ≡ true
    → is_apart is_restore_key (insert key value d) ≡ true
unfolding insert
insert-is_apart key value [] h k = h
insert-is_apart key value ((j, v) ∷ d) h k = ground (arith, insert-is_apart key value d h, h, k)

unit_key-is_apart : (n : ℕ) (v : String) → is_apart is_restore_key ((unit_key n, v) ∷ []) ≡ true
unfolding unit_key
unit_key-is_apart n v = elim (Bool-cases (n == 0)) [
  | inl none_before ↦ rw none_before refl
  | inr some_before ↦ rw some_before (is_apart-str (n - 1) v)
]

mark_server-is_apart :
    (added removed : List String) (s : String) (d : Databag) (n : ℕ)
    → is_apart is_restore_key d ≡ true
    → is_apart is_restore_key (mark_server added removed s d n) ≡ true
unfolding mark_server
mark_server-is_apart added removed s d n h = elim (Bool-cases (str_mem s added)) [
  | inl new ↦ rw new (insert-is_apart (unit_key n) "added" d (unit_key-is_apart n "added") h)
  | inr old ↦ elim (Bool-cases (str_mem s removed)) [
    | inl gone ↦
        rw (old, gone) (insert-is_apart (unit_key n) "removed" d (unit_key-is_apart n "removed") h)
    | inr kept ↦ rw (old, kept) h
  ]
]

of_ok :
    {d e : Databag}
    → ok d ≡ ok e
    → is_apart is_restore_key d ≡ true
    → is_apart is_restore_key e ≡ true
of_ok returned h = cc

note_server-is_apart :
    (added removed : List String) (s : String) (d : Databag) {e : Databag}
    → note_server added removed s d ≡ ok e
    → is_apart is_restore_key d ≡ true
    → is_apart is_restore_key e ≡ true
unfolding note_server
note_server-is_apart added removed s d {e} returned h =
    by_number added removed s d (server_number s) returned h
  where
    by_number :
        (added removed : List String) (s : String) (d : Databag) (n : Option ℕ) {e : Databag}
        → (elim n [ none ↦ raised other_error | some m ↦ ok (mark_server added removed s d m) ])
          ≡ ok e
        → is_apart is_restore_key d ≡ true
        → is_apart is_restore_key e ≡ true
    by_number added removed s d none returned h = cc
    by_number added removed s d (some n) returned h =
        of_ok returned (mark_server-is_apart added removed s d n h)

note_servers-is_apart :
    (added removed l : List String) (d : Databag) {e : Databag}
    → note_servers added removed l d ≡ ok e
    → is_apart is_restore_key d ≡ true
    → is_apart is_restore_key e ≡ true
unfolding note_servers
note_servers-is_apart added removed [] d {e} returned h = of_ok returned h
note_servers-is_apart added removed (s ∷ l) d {e} returned h =
    let (mid, first, rest) = >>=-returns (note_server added removed s d) _ returned in
    note_servers-is_apart added removed l mid rest (note_server-is_apart added removed s d first h)

reconfigure-is_apart :
    (zk : ZkAdmin) (wanted : List String) {r : Reconfigured}
    → reconfigure zk wanted ≡ ok r
    → is_apart is_restore_key r.updated ≡ true
unfolding reconfigure get_updated_servers
reconfigure-is_apart zk wanted {r} returned =
    let (present, _, a) = >>=-returns zk.server_members _ returned in
    let (left, _, b) = >>=-returns (zk.remove present (set_minus present wanted)) _ a in
    let new = sorted (set_minus wanted left) in
    let (members, _, d) = >>=-returns (zk.add left new) _ b in
    let gone = set_minus present wanted in
    let (updated, noted, last) = >>=-returns (note_servers new gone (new ++ gone) []) _ d in
    of_record last (note_servers-is_apart new gone (new ++ gone) [] noted refl)
  where
    of_record :
        {q r : Reconfigured}
        → ok q ≡ ok r
        → is_apart is_restore_key q.updated ≡ true
        → is_apart is_restore_key r.updated ≡ true
    of_record e h = cc

pub update_cluster-is_apart :
    (zk : ZkAdmin) (s : ClusterState) {updated : Databag}
    → update_cluster zk s ≡ ok updated
    → is_apart is_restore_key updated ≡ true
unfolding update_cluster
update_cluster-is_apart zk s {updated} returned =
    of_result (reconfigure zk (active_server_strings s)) refl returned
  where
    caught :
        (b : Bool) (e : Error) {updated : Databag}
        → (if b then ok [] else raised e) ≡ ok updated
        → is_apart is_restore_key updated ≡ true
    caught true e returned = of_ok returned refl
    caught false e returned = cc

    of_result :
        (r : Outcome Reconfigured)
        → reconfigure zk (active_server_strings s) ≡ r
        → (elim r [ ok q ↦ ok q.updated | raised e ↦ if is_not_ready e then ok [] else raised e ])
          ≡ ok updated
        → is_apart is_restore_key updated ≡ true
    of_result (ok r) ran returned =
        of_ok returned (reconfigure-is_apart zk (active_server_strings s) ran)
    of_result (raised e) ran returned = caught (is_not_ready e) e returned
