-- ===== src/Backups/Files.antt =====
-- The files of a restore on the unit's disk: `restore_snapshot` and `cleanup_leftover_files` of
-- src/managers/backup.py, as the calls that they make.
use Prim.Native.String.{◌++◌}
use zookeeper_k8s_operator.Base.{
  String, List, [], ◌∷◌, ◌≡◌, refl, Bool, true, false, none, some, all, Outcome, ok, raised,
  key_error, if◌then◌else◌,
}
use zookeeper_k8s_operator.Databag.{Databag, get, get_or}
use zookeeper_k8s_operator.Workload.{data_dir, datalog_dir}
use zookeeper_k8s_operator.Backups.{snapshot_key}

pub data Call : Type 0 where
  bash : String → Call
  download_file : String → String → Call

abbrev user : String
user = "584788"

abbrev pub version_dir : String → String
version_dir parent = parent ++ "/version-2"

copy_aside : String → Call
copy_aside dir = bash ("cp -rp " ++ (dir ++ (" " ++ (dir ++ ".bak"))))

-- the present files are kept aside, and then removed
unfoldable pub clearing_calls : List Call
unfolding copy_aside
clearing_calls =
    copy_aside (version_dir data_dir)
    ∷ copy_aside (version_dir datalog_dir)
    ∷ bash ("rm -rf " ++ (version_dir data_dir ++ "/*"))
    ∷ bash ("rm -rf " ++ (version_dir datalog_dir ++ "/*"))
    ∷ []

abbrev restored_snapshot : String
restored_snapshot = version_dir data_dir ++ "/snapshot.0"

unfoldable pub fetching_calls : String → String → List Call
unfolding snapshot_key
fetching_calls backups_path backup_id =
    download_file (snapshot_key backups_path backup_id) restored_snapshot
    ∷ bash ("chown " ++ (user ++ (":" ++ (user ++ (" " ++ restored_snapshot)))))
    ∷ []

has_key : Databag → String → Bool
unfolding get
has_key parameters key = elim (get key parameters) [ none ↦ false | some v ↦ true ]

-- `bucket` reads these parameters of the storage, and takes the path from them; a missing one is a
-- KeyError.
unfoldable pub bucket_path : Databag → Outcome String
unfolding has_key get_or
bucket_path parameters =
    if all (has_key parameters)
      ("path" ∷ "access-key" ∷ "secret-key" ∷ "region" ∷ "endpoint" ∷ "bucket" ∷ [])
    then ok (get_or "path" "" parameters)
    else raised key_error

unfoldable pub cleanup_calls : List Call
cleanup_calls =
    bash ("rm -rf " ++ (version_dir data_dir ++ ".bak"))
    ∷ bash ("rm -rf " ++ (version_dir datalog_dir ++ ".bak"))
    ∷ []

calls_example :
    (clearing_calls
      ≡ bash "cp -rp /var/lib/zookeeper/data/version-2 /var/lib/zookeeper/data/version-2.bak"
        ∷ bash
            "cp -rp /var/lib/zookeeper/data-log/version-2 /var/lib/zookeeper/data-log/version-2.bak"
        ∷ bash "rm -rf /var/lib/zookeeper/data/version-2/*"
        ∷ bash "rm -rf /var/lib/zookeeper/data-log/version-2/*"
        ∷ [])
    × (fetching_calls "zk" "b1"
        ≡ download_file "zk/b1/snapshot" "/var/lib/zookeeper/data/version-2/snapshot.0"
          ∷ bash "chown 584788:584788 /var/lib/zookeeper/data/version-2/snapshot.0"
          ∷ [])
    × (cleanup_calls
        ≡ bash "rm -rf /var/lib/zookeeper/data/version-2.bak"
          ∷ bash "rm -rf /var/lib/zookeeper/data-log/version-2.bak"
          ∷ [])
unfolding clearing_calls fetching_calls cleanup_calls
calls_example = (refl, refl, refl)
