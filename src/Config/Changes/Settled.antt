-- ===== src/Config/Changes/Settled.antt =====
-- The tests of the properties and of the JAAS file in `config_changed` of src/managers/config.py.
use Prim.Native.String.{◌++◌ as cat}
use zookeeper_k8s_operator.Base.{
  not, ◌||◌, String, ◌≡◌, refl, ap, ◌∙◌, Bool, true, false, List, All, all, map, str_eq, arith,
  Bool-cases, inl, inr, if◌then◌else◌, some, none, first,
}
use zookeeper_k8s_operator.Text.{str_in, split, splitlines, strip}
use zookeeper_k8s_operator.Text.Lines.{any-splitlines, ends_plainly}
use zookeeper_k8s_operator.Databag.{get-insert}
use zookeeper_k8s_operator.State.{ClusterState}
use zookeeper_k8s_operator.Workload.{
  Files, read, write, properties_path, jaas_path, client_jaas_path, environment_path, dynamic_path,
}
use zookeeper_k8s_operator.Config.{
  CharmConfig, zookeeper_properties, limit_properties, current_dynamic_config_file,
}
use zookeeper_k8s_operator.Config.Jaas.{jaas_config, client_jaas_config}
use zookeeper_k8s_operator.Config.Jaas.Dedent.{blank_first, jaas_config-blank_first}
use zookeeper_k8s_operator.Config.Changes.{
  sets_differ, set_zookeeper_properties, set_jaas_config, set_client_jaas_config,
  set_server_jvmflags, update_environment, properties_changed, jaas_changed, log_level_changed,
  config_changed,
}
use zookeeper_k8s_operator.Config.Changes.Differ.{sets_differ-false_iff}
use zookeeper_k8s_operator.Config.Changes.Written.{
  is_line, read-write, zookeeper_properties-same, properties_changed-set_zookeeper_properties,
}

-- a write leaves the other files as they are
read-write_other :
    (content path other : String) (files : Files)
    → str_eq path other ≡ false
    → read other (write content path files) ≡ read other files
unfolding read write
read-write_other content path other files h = ground (arith, get-insert path content other files, h)

-- The tests look only at the two files.
properties_changed-read :
    (c : CharmConfig) (s : ClusterState) (a b : Files)
    → read properties_path a ≡ read properties_path b
    → properties_changed c s a ≡ properties_changed c s b
unfolding properties_changed
properties_changed-read c s a b e = rw (e, zookeeper_properties-same c s b a (dynamic a b e)) refl
  where
    dynamic :
        (a b : Files)
        → read properties_path a ≡ read properties_path b
        → current_dynamic_config_file a ≡ current_dynamic_config_file b
    dynamic a b e =
        unfold current_dynamic_config_file in
        ap
          (λ (lines : List String). elim (first (str_in "dynamicConfigFile") lines) [
            | none ↦ cat "dynamicConfigFile=" dynamic_path
            | some line ↦ line
          ])
          e

jaas_changed-read :
    (s : ClusterState) (a b : Files)
    → read jaas_path a ≡ read jaas_path b
    → jaas_changed s a ≡ jaas_changed s b
unfolding jaas_changed
jaas_changed-read s a b e = rw e refl

-- with both JAAS files written
with_jaas : ClusterState → Files → Files
with_jaas s files = set_client_jaas_config s (set_jaas_config s files)

jaas_changed-with_jaas :
    (s : ClusterState) (files : Files)
    → ends_plainly (jaas_config s) ≡ true
    → jaas_changed s (with_jaas s files) ≡ false
unfolding jaas_changed with_jaas set_client_jaas_config set_jaas_config
jaas_changed-with_jaas s files plain =
    ap (λ (l : List String). sets_differ (map strip l) (map strip (splitlines (jaas_config s))))
      (read-write_other (client_jaas_config s) client_jaas_path jaas_path
          (write (jaas_config s) jaas_path files) refl
        ∙ read-write (jaas_config s) jaas_path files)
    ∙ same_lines (jaas_config-blank_first s)
  where
    same_lines :
        (u : String) × (jaas_config s ≡ blank_first u)
        → sets_differ
            (map strip (split 10 (jaas_config s)))
            (map strip (splitlines (jaas_config s)))
          ≡ false
    same_lines (u, e) = rw e (
        (sets_differ-false_iff (map strip (split 10 (blank_first u)))
            (map strip (splitlines (blank_first u)))).1
          (λ x. any-splitlines x u (rw e at plain)))

-- what is left of the write of one file
if-keeps :
    (b : Bool) (path : String) (x y : Files)
    → read path x ≡ read path y
    → read path (if b then x else y) ≡ read path y
if-keeps true path x y e = e
if-keeps false path x y e = refl

-- each write settles its own test
properties_settle :
    (c : CharmConfig) (s : ClusterState) (files : Files)
    → all is_line (zookeeper_properties c s files) ≡ true
    → All (λ line. str_in "dynamicConfigFile" line ≡ false) (limit_properties c)
    → properties_changed c s
        (if properties_changed c s files then set_zookeeper_properties c s files else files)
      ≡ false
properties_settle c s files h plain = elim (Bool-cases (properties_changed c s files)) [
  | inl changed ↦ rw changed (properties_changed-set_zookeeper_properties c s files h plain)
  | inr same ↦ rw same same
]

jaas_settle :
    (s : ClusterState) (files : Files) (b : Bool)
    → ends_plainly (jaas_config s) ≡ true
    → jaas_changed s files ≡ b
    → jaas_changed s (if b then with_jaas s files else files) ≡ false
jaas_settle s files true plain e = jaas_changed-with_jaas s files plain
jaas_settle s files false plain e = e

read-set_server_jvmflags :
    (c : CharmConfig) (files : Files) (path : String)
    → str_eq environment_path path ≡ false
    → read path (set_server_jvmflags c files) ≡ read path files
unfolding set_server_jvmflags update_environment
read-set_server_jvmflags c files path h = read-write_other _ environment_path path files h

read-with_jaas :
    (s : ClusterState) (files : Files)
    → read properties_path (with_jaas s files) ≡ read properties_path files
unfolding with_jaas set_client_jaas_config set_jaas_config
read-with_jaas s files =
    read-write_other (client_jaas_config s) client_jaas_path properties_path
      (write (jaas_config s) jaas_path files) refl
    ∙ read-write_other (jaas_config s) jaas_path properties_path files refl

read-set_zookeeper_properties_other :
    (c : CharmConfig) (s : ClusterState) (files : Files)
    → read jaas_path (set_zookeeper_properties c s files) ≡ read jaas_path files
unfolding set_zookeeper_properties
read-set_zookeeper_properties_other c s files =
    read-write_other _ properties_path jaas_path files refl

-- the files after the writes that the three tests ask for
stages : CharmConfig → ClusterState → Files → Bool → Bool → Bool → Files
stages c s files properties jaas level =
    let with_properties = if properties then set_zookeeper_properties c s files else files in
    let both = if jaas then with_jaas s with_properties else with_properties in
    if level then set_server_jvmflags c both else both

-- nothing is written where all three tests fail
chosen :
    (p j l : Bool) (c : CharmConfig) (s : ClusterState) (files : Files)
    → (if◌then◌else◌ {A = Bool × Files}
        (not (p || (j || l)))
        (false, files)
        (true, stages c s files p j l)).1
      ≡ stages c s files p j l
unfolding stages
chosen true j l c s files = refl
chosen false true l c s files = refl
chosen false false true c s files = refl
chosen false false false c s files = refl

config_changed-stages :
    (c : CharmConfig) (s : ClusterState) (files : Files)
    → (config_changed c s files).1
      ≡ stages c s files
          (properties_changed c s files)
          (jaas_changed s files)
          (log_level_changed c files)
unfolding config_changed stages with_jaas
config_changed-stages c s files =
    chosen (properties_changed c s files) (jaas_changed s files) (log_level_changed c files) c s
      files

read-stages :
    (c : CharmConfig) (s : ClusterState) (files : Files) (p j l : Bool)
    → (read properties_path (stages c s files p j l)
        ≡ read properties_path (if p then set_zookeeper_properties c s files else files))
      × (read jaas_path (stages c s files p j l)
          ≡ read jaas_path (
              if j
              then with_jaas s (if p then set_zookeeper_properties c s files else files)
              else (if p then set_zookeeper_properties c s files else files)))
unfolding stages
read-stages c s files p j l =
    let wp = if p then set_zookeeper_properties c s files else files in
    let both = if j then with_jaas s wp else wp in
    (
      if-keeps l properties_path (set_server_jvmflags c both) both
            (read-set_server_jvmflags c both properties_path refl)
          ∙ if-keeps j properties_path (with_jaas s wp) wp (read-with_jaas s wp),
      if-keeps l jaas_path (set_server_jvmflags c both) both
          (read-set_server_jvmflags c both jaas_path refl),
    )

-- Where no property has a newline, the lines of the limits do not name the dynamic file, and the JAAS file has no
-- character but the newline at which `splitlines` ends a line: after the tests and the writes that they ask for, the tests of the properties and of the JAAS file find no change.
pub properties_changed-config_changed :
    (c : CharmConfig) (s : ClusterState) (files : Files)
    → all is_line (zookeeper_properties c s files) ≡ true
    → All (λ line. str_in "dynamicConfigFile" line ≡ false) (limit_properties c)
    → ends_plainly (jaas_config s) ≡ true
    → (properties_changed c s (config_changed c s files).1 ≡ false)
      × (jaas_changed s (config_changed c s files).1 ≡ false)
properties_changed-config_changed c s files h plain unbroken =
    let p = properties_changed c s files in
    let j = jaas_changed s files in
    let wp = if p then set_zookeeper_properties c s files else files in
    let (properties, jaas) = read-stages c s files p j (log_level_changed c files) in
    let same_jaas = jaas_changed-read s wp files (
      if-keeps p jaas_path (set_zookeeper_properties c s files) files
        (read-set_zookeeper_properties_other c s files)) in
    rw (config_changed-stages c s files) (
      properties_changed-read c s (stages c s files p j (log_level_changed c files)) wp properties
          ∙ properties_settle c s files h plain,
      jaas_changed-read s (stages c s files p j (log_level_changed c files))
            (if j then with_jaas s wp else wp) jaas
          ∙ jaas_settle s wp j unbroken same_jaas,
    )
