-- ===== src/Config/Changes/Written.antt =====
-- What is read back of a file that was written by lines: src/managers/config.py.
use Prim.Native.String.{◌++◌ as cat}
use zookeeper_k8s_operator.Text.Split.{split-join}
use zookeeper_k8s_operator.Config.Changes.{
  sets_differ, set_zookeeper_properties, properties_changed,
}
use zookeeper_k8s_operator.Config.Changes.Differ.{sets_differ-false_iff}
use zookeeper_k8s_operator.Config.{build_static_properties, limit_properties}
use zookeeper_k8s_operator.Text.{join}
use zookeeper_k8s_operator.Base.{
  Option, all, ◌&&◌, if◌then◌else◌, sym, ◌++◌, none, eq_refl, String, ◌≡◌, refl, ap, ◌∙◌, true,
  false, List, [], ◌∷◌, All, some, first, str_eq, arith, Bool,
}
use zookeeper_k8s_operator.Text.{truthy, split, str_in}
use zookeeper_k8s_operator.Text.Split.{free}
use zookeeper_k8s_operator.Databag.{get-insert}
use zookeeper_k8s_operator.State.{ClusterState, cluster, unit_server}
use zookeeper_k8s_operator.Models
use zookeeper_k8s_operator.Workload.{
  Files, read, write, properties_path, data_dir, datalog_dir, dynamic_path,
}
use zookeeper_k8s_operator.Config.{
  CharmConfig, zookeeper_properties, base_properties, default_properties, metrics_exporter_config,
  ssl_properties, current_dynamic_config_file,
}

-- no newline
abbrev pub is_line : String → Bool
is_line s = free 10 s

pub read-write :
    (content path : String) (files : Files)
    → read path (write content path files) ≡ split 10 content
unfolding read write
read-write content path files = ground (arith, get-insert path content path files, eq_refl path)

optional : Bool → List String → List String
optional wanted extra = if wanted then extra else []

append_nil : (xs : List String) → xs ++ [] ≡ xs
append_nil [] = refl
append_nil (x ∷ xs) = ap (◌∷◌ x) (append_nil xs)

append_assoc : (xs ys zs : List String) → (xs ++ ys) ++ zs ≡ xs ++ (ys ++ zs)
append_assoc [] ys zs = refl
append_assoc (x ∷ xs) ys zs = ap (◌∷◌ x) (append_assoc xs ys zs)

-- one more option
also :
    (wanted : Bool) (extra : List String) (base rest : List String) {xs : List String}
    → xs ≡ base ++ rest
    → (if wanted then xs ++ extra else xs) ≡ base ++ (rest ++ optional wanted extra)
unfolding optional
also true extra base rest e = ap (λ (l : List String). l ++ extra) e ∙ append_assoc base rest extra
also false extra base rest e = e ∙ ap (λ (l : List String). base ++ l) (sym (append_nil rest))

-- The options are put after the properties that every configuration has.
options :
    (c : CharmConfig) (s : ClusterState) (files : Files)
    → (rest : List String) × (zookeeper_properties c s files ≡ base_properties c files ++ rest)
unfolding zookeeper_properties
options c s files =
    let base = base_properties c files in
    let tls =
      also (Models.App.tls (cluster s)) (ssl_properties s) base [] (sym (append_nil base)) in
    let switching =
      also (Models.App.switching_encryption (cluster s)) ("portUnification=true" ∷ []) base _ tls in
    (
      _,
      also
          (str_eq (Models.App.quorum (cluster s)) "ssl"
            && truthy (Models.Server.certificate (unit_server s)))
          ("sslQuorum=true" ∷ []) base _ switching,
    )

first-append :
    (p : String → Bool) (before lines : List String)
    → All (λ l. p l ≡ false) before
    → first p (before ++ lines) ≡ first p lines
first-append p [] lines none_before = refl
first-append p (l ∷ before) lines none_before =
    ground (arith, none_before.0, first-append p before lines none_before.1)

names_dynamic : String → Bool
names_dynamic line = str_in "dynamicConfigFile" line

after_limits : String → List String
unfolding split metrics_exporter_config
after_limits line =
    split 10 default_properties
    ++ ((cat "dataDir=" data_dir ∷ cat "dataLogDir=" datalog_dir ∷ line ∷ [])
        ++ metrics_exporter_config)

-- no line of the defaults names the dynamic file
first-defaults :
    (line : String) (rest : List String)
    → names_dynamic line ≡ true
    → first names_dynamic (after_limits line ++ rest) ≡ some line
unfolding after_limits names_dynamic str_in
first-defaults line rest h =
    ap
      (λ (b : Bool). if b then some line else first names_dynamic (metrics_exporter_config ++ rest))
      h

names_dynamic-current : (files : Files) → names_dynamic (current_dynamic_config_file files) ≡ true
unfolding names_dynamic current_dynamic_config_file
names_dynamic-current files = found (read properties_path files)
  where
    found :
        (lines : List String)
        → str_in "dynamicConfigFile" (elim (first (str_in "dynamicConfigFile") lines) [
          | none ↦ cat "dynamicConfigFile=" dynamic_path
          | some line ↦ line
        ])
          ≡ true
    found [] = unfold str_in in refl
    found (line ∷ lines) = ground (arith, found lines)

first-base_properties :
    (c : CharmConfig) (files : Files) (rest : List String)
    → All (λ line. names_dynamic line ≡ false) (limit_properties c)
    → first names_dynamic (base_properties c files ++ rest)
      ≡ some (current_dynamic_config_file files)
unfolding base_properties limit_properties after_limits
first-base_properties c files rest plain =
    first-append names_dynamic (limit_properties c)
      (after_limits (current_dynamic_config_file files) ++ rest) plain
    ∙ first-defaults (current_dynamic_config_file files) rest (names_dynamic-current files)

-- The line of the dynamic file is the first one that names it, if the limits do not.
current_dynamic_config_file-written :
    (c : CharmConfig) (files after : Files) (rest : List String)
    → All (λ line. names_dynamic line ≡ false) (limit_properties c)
    → read properties_path after ≡ base_properties c files ++ rest
    → current_dynamic_config_file after ≡ current_dynamic_config_file files
current_dynamic_config_file-written c files after rest plain e =
    chosen after (current_dynamic_config_file files)
      (ap (λ (l : List String). first names_dynamic l) e ∙ first-base_properties c files rest plain)
  where
    chosen :
        (after : Files) (line : String)
        → first names_dynamic (read properties_path after) ≡ some line
        → current_dynamic_config_file after ≡ line
    chosen after line h =
        unfold current_dynamic_config_file names_dynamic in
        ap
          (λ (found : Option String). elim found [
            | none ↦ cat "dynamicConfigFile=" dynamic_path
            | some l ↦ l
          ])
          h

-- The lines that a manager writes are the lines that it reads, if none has a newline.
read-write_lines :
    (path line : String) (rest : List String) (files : Files) {lines : List String}
    → lines ≡ line ∷ rest
    → All (λ l. is_line l ≡ true) lines
    → read path (write (join "\n" lines) path files) ≡ lines
read-write_lines path line rest files e h =
    rw e (read-write (join "\n" (line ∷ rest)) path files ∙ split-join line rest (rw e at h))

read-set_zookeeper_properties :
    (c : CharmConfig) (s : ClusterState) (files : Files)
    → All (λ l. is_line l ≡ true) (zookeeper_properties c s files)
    → read properties_path (set_zookeeper_properties c s files) ≡ zookeeper_properties c s files
unfolding set_zookeeper_properties base_properties limit_properties
read-set_zookeeper_properties c s files h =
    read-write_lines properties_path _ _ files (options c s files).1 h

pub zookeeper_properties-same :
    (c : CharmConfig) (s : ClusterState) (files after : Files)
    → current_dynamic_config_file after ≡ current_dynamic_config_file files
    → zookeeper_properties c s after ≡ zookeeper_properties c s files
unfolding zookeeper_properties base_properties
zookeeper_properties-same c s files after e = rw e refl

properties_changed-same :
    (c : CharmConfig) (s : ClusterState) (files : Files)
    → read properties_path files ≡ zookeeper_properties c s files
    → properties_changed c s files ≡ false
unfolding properties_changed
properties_changed-same c s files e =
    ap
      (λ (l : List String).
        sets_differ (build_static_properties l)
          (build_static_properties (zookeeper_properties c s files)))
      e
    ∙ (sets_differ-false_iff (build_static_properties (zookeeper_properties c s files)) _).1
        (λ x. refl)

all-All :
    (p : String → Bool) (lines : List String) → all p lines ≡ true → All (λ l. p l ≡ true) lines
all-All p [] h = tt
all-All p (l ∷ lines) h = (ground (arith, h), all-All p lines (ground (arith, h)))

-- Where no property has a newline, and the lines of the limits do not name the dynamic file, the
-- properties are found unchanged once they are written.
pub properties_changed-set_zookeeper_properties :
    (c : CharmConfig) (s : ClusterState) (files : Files)
    → all is_line (zookeeper_properties c s files) ≡ true
    → All (λ line. str_in "dynamicConfigFile" line ≡ false) (limit_properties c)
    → properties_changed c s (set_zookeeper_properties c s files) ≡ false
properties_changed-set_zookeeper_properties c s files h plain =
    let after = set_zookeeper_properties c s files in
    let (rest, e) = options c s files in
    let back =
      read-set_zookeeper_properties c s files
        (all-All is_line (zookeeper_properties c s files) h) in
    properties_changed-same c s after (
      back
      ∙ sym (
          zookeeper_properties-same c s files after (
            current_dynamic_config_file-written c files after rest (unfold names_dynamic in plain)
              (back ∙ e))))
