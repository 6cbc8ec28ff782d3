-- ===== src/Workload/Container.antt =====
-- The calls of the container: `start`, `stop`, `restart` and `exec` of src/workload.py.
use zookeeper_k8s_operator.Base.{
  String, List, [], ◌∷◌, ◌++◌, Option, change_error, Outcome, ok, raised,
}
use zookeeper_k8s_operator.Text.{blank_parts}
use zookeeper_k8s_operator.Databag.{Databag}
use zookeeper_k8s_operator.Workload.{data_dir, datalog_dir}

-- The parts of a Pebble layer that the charm writes.
pub record PebbleService : Type 0 where
  pub override : String
  pub summary : String
  pub command : String
  pub startup : String
  pub environment : Databag

pub record PebbleCheck : Type 0 where
  pub override : String
  pub level : String
  pub exec_command : String

pub record Layer : Type 0 where
  pub summary : String
  pub description : String
  pub services : List (String × PebbleService)
  pub checks : List (String × PebbleCheck)

-- A call of the container, with its arguments: directories are made with their parents, and a layer is
-- combined with one of the same name.
pub data Request : Type 0 where
  make_dir : String → Request
  add_layer : String → Layer → Request
  replan : Request
  stop_service restart_service : String → Request
  execute : List String → Option String → Request

-- `answer` is what the container answers to a call after the earlier ones.
pub record Container : Type 0 where
  pub name : String
  pub answer : List Request → Request → Outcome String

-- Code that calls the container: the calls so far go in, and come out with those that it made.
abbrev W : Type 0
W = List Request → Outcome String × List Request

abbrev request : Container → Request → W
request k r earlier = (k.answer earlier r, earlier ++ (r ∷ []))

abbrev proceed : Outcome String → W → W
proceed (ok a) m = m
proceed (raised e) m = λ earlier. (raised e, earlier)

infixl 5 ◌>>◌
abbrev ◌>>◌ : W → W → W
◌>>◌ m n earlier = let r = m earlier in proceed r.0 n r.1

-- a ChangeError ends `start` as a return
abbrev swallow : Outcome String → Outcome String
swallow (ok a) = ok a
swallow (raised change_error) = ok ""
swallow (raised e) = raised e

unfoldable pub start : Container → Layer → W
start k layer = do request k (make_dir data_dir); request k (make_dir datalog_dir); planned
  where
    planned : W
    planned earlier =
        let r = (do request k (add_layer k.name layer); request k replan) earlier in
        (swallow r.0, r.1)

unfoldable pub stop : Container → W
stop k = request k (stop_service k.name)

unfoldable pub restart : Container → W
restart k = request k (restart_service k.name)

-- A command is a list of words, or a text that is split at blanks.
pub data Command : Type 0 where
  words : List String → Command
  text : String → Command

unfoldable pub exec : Container → Command → Option String → W
unfolding blank_parts
exec k (words command) working_dir = request k (execute command working_dir)
exec k (text command) working_dir = request k (execute (blank_parts command) working_dir)
