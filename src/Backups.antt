-- ===== src/Backups.antt =====
-- `BackupManager` of src/managers/backup.py: snapshots in an object storage.
pub mod Recent
pub mod Created
pub mod Files
mod Tests
use Prim.Native.String.{◌++◌}
use zookeeper_k8s_operator.Base.{
  refl, ℕ, zero, suc, String, ◌≡◌, ◌≢◌, Bool, true, false, not, ◌||◌, Option, none, some, List, [],
  ◌∷◌, str_eq, leb, if◌then◌else◌, keep, Outcome, ok, raised, ◌>>=◌,
}
use zookeeper_k8s_operator.Text.{split_on, ends_with, truthy}
use text.Mathlib.Text.{starts_with}
use zookeeper_k8s_operator.Stream.{take}

-- os.path.join(a, b)
unfoldable pub join_path : String → String → String
unfolding ends_with truthy
join_path a b =
    if starts_with b "/"
    then b
    else if not (truthy a) || ends_with a "/"
    then a ++ b
    else a ++ ("/" ++ b)

abbrev pub backups_limit : ℕ
backups_limit = 20

-- `backups_path` until the bucket is first read, which sets it to the configured path
abbrev pub default_path : String
default_path = "zookeeper_backups"

-- `resolved` is what the resolver answers for the region: a suffix of host names, and a host name.
unfoldable pub construct_endpoint : String → Option (String × String) → String
unfolding ends_with split_on
construct_endpoint endpoint none = endpoint
construct_endpoint endpoint (some (dns_suffix, hostname)) =
    if ends_with endpoint dns_suffix
    then scheme (split_on "://" endpoint) ++ ("://" ++ hostname)
    else endpoint
  where
    scheme : List String → String
    scheme [] = ""
    scheme (part ∷ rest) = part

construct_endpoint_example :
    construct_endpoint "https://s3.amazonaws.com"
      (some ("amazonaws.com", "s3.eu-west-1.amazonaws.com"))
    ≡ "https://s3.eu-west-1.amazonaws.com"
unfolding construct_endpoint
construct_endpoint_example = refl

-- A file of the bucket, with the time of its last change.
pub record RemoteFile : Type 0 where
  pub key : String
  pub last_modified : ℕ

pub record BackupMetadata : Type 0 where
  pub id : String
  pub log_sequence_number : ℕ
  pub path : String

-- What is stored: the metadata as YAML, or a stream of bytes.
pub data Body {ℓ} (Byte : Type ℓ) : Type ℓ where
  yaml : BackupMetadata → Body Byte
  snapshot : List Byte → Body Byte

-- The object storage is a service: its contents, and the calls that the manager makes.
pub record ObjectStore (Byte Store : Type 0) : Type 0 where
  pub put : String → Body Byte → Store → Outcome Store
  pub head : String → Store → Outcome Bool
  pub files : String → Store → Outcome (List RemoteFile)
  pub metadata : String → Store → Outcome BackupMetadata

-- where the files of a backup are
unfoldable pub snapshot_key : String → String → String
unfolding join_path
snapshot_key backups_path id = join_path (join_path backups_path id) "snapshot"

unfoldable pub metadata_key : String → String → String
unfolding join_path
metadata_key backups_path id = join_path (join_path backups_path id) "metadata.yaml"

-- sorted(…, key=attrgetter("last_modified"), reverse=True), which keeps the order of equal items
insert_newest : RemoteFile → List RemoteFile → List RemoteFile
insert_newest f [] = f ∷ []
insert_newest f (g ∷ gs) =
    if leb g.last_modified f.last_modified then f ∷ g ∷ gs else g ∷ insert_newest f gs

unfoldable pub newest_first : List RemoteFile → List RemoteFile
unfolding insert_newest
newest_first [] = []
newest_first (f ∷ fs) = insert_newest f (newest_first fs)

-- the files that are downloaded
unfoldable pub recent : List RemoteFile → List RemoteFile
unfolding newest_first ends_with
recent fs = take backups_limit (newest_first (keep (λ f. ends_with f.key ".yaml") fs))

module _ {Byte Store : Type 0} (api : ObjectStore Byte Store) (backups_path : String) where
  download_all : List RemoteFile → Store → Outcome (List BackupMetadata)
  download_all [] store = ok []
  download_all (f ∷ fs) store = api.metadata f.key store >>= λ entry.
      download_all fs store >>= λ entries. ok (entry ∷ entries)

  unfoldable pub list_backups : Store → Outcome (List BackupMetadata)
  unfolding download_all recent
  list_backups store = api.files backups_path store >>= λ fs. download_all (recent fs) store

  -- The snapshot's name is the time, `zxid` is read from the answer's headers, and `bytes` is its
  -- stream. The entry is made before the bucket is first read, the keys are made after it.
  unfoldable pub create_backup :
      String → Outcome ℕ → List Byte → Store → Outcome (BackupMetadata × Store)
  unfolding snapshot_key metadata_key
  create_backup snapshot_name zxid bytes store = zxid >>= λ number.
      let entry : BackupMetadata = record {
        id = snapshot_name;
        log_sequence_number = number;
        path = snapshot_key default_path snapshot_name;
      } in
      api.put (metadata_key backups_path snapshot_name) (yaml entry) store >>= λ with_metadata.
      api.put (snapshot_key backups_path snapshot_name) (snapshot bytes) with_metadata >>= λ after.
      ok (entry, after)

  unfoldable pub is_snapshot_in_bucket : String → Store → Outcome Bool
  unfolding snapshot_key
  is_snapshot_in_bucket backup_id store = api.head (snapshot_key backups_path backup_id) store
