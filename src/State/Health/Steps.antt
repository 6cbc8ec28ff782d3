-- ===== src/State/Health/Steps.antt =====
-- When all units have done an instruction: `is_next_restore_step_possible` of src/core/cluster.py.
use zookeeper_k8s_operator.Base.{◌≡◌, Bool, Option, none, some, List, [], ◌∷◌, ok, all, arith}
use zookeeper_k8s_operator.Literals.{RestoreStep}
use zookeeper_k8s_operator.Models
use zookeeper_k8s_operator.Models.Server.{ZkServer}
use zookeeper_k8s_operator.State.{ClusterState, cluster, servers}
use zookeeper_k8s_operator.State.Health.{
  all_at_step, all_at_instruction, same_step, all_units_done, is_next_restore_step_possible,
}

-- where the loop over the servers answers, it says whether they all have done the step
all_at_step-ok :
    (current : RestoreStep) (xs : List ZkServer) {b : Bool}
    → all_at_step current xs ≡ ok b
    → b ≡ all (λ server. same_step (Models.Server.restore_progress server) (some current)) xs
unfolding all_at_step same_step
all_at_step-ok current [] h = ground (arith, h)
all_at_step-ok current (server ∷ rest) {b} h =
    ground (arith, h, all_at_step-ok current rest {b = b})

all_at_instruction-ok :
    (told : Option RestoreStep) (xs : List ZkServer) {b : Bool}
    → all_at_instruction told xs ≡ ok b
    → b ≡ all (λ server. same_step (Models.Server.restore_progress server) told) xs
unfolding all_at_instruction
all_at_instruction-ok none xs h = cc
all_at_instruction-ok (some current) xs h = all_at_step-ok current xs h

pub is_next-ok :
    (s : ClusterState) {b : Bool} → is_next_restore_step_possible s ≡ ok b → b ≡ all_units_done s
unfolding is_next_restore_step_possible all_units_done
is_next-ok s h = all_at_instruction-ok (Models.App.restore_instruction (cluster s)) (servers s) h
