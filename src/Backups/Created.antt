-- ===== src/Backups/Created.antt =====
-- `create_backup` and `is_snapshot_in_bucket` of src/managers/backup.py, one after the other.
use zookeeper_k8s_operator.Base.{ℕ, String, ◌≡◌, refl, true, List, ok}
use zookeeper_k8s_operator.Backups.{
  ObjectStore, Body, BackupMetadata, default_path, snapshot_key, metadata_key, create_backup,
  is_snapshot_in_bucket,
}

-- The storage's documented behaviour: a put object is there, and the others stay.
pub record IsStore {Byte Store : Type 0} (api : ObjectStore Byte Store) : Type 0 where
  pub put_returns :
      (key : String) (body : Body Byte) (store : Store)
      → (after : Store) × (api.put key body store ≡ ok after)
  pub head-put :
      (key : String) (body : Body Byte) (store : Store) {after : Store}
      → api.put key body store ≡ ok after
      → api.head key after ≡ ok true

module _ {Byte Store : Type 0} (api : ObjectStore Byte Store) (law : IsStore api) where
  pub record IsCreated (path name : String) (bytes : List Byte) (number : ℕ) (store : Store)
      : Type 0 where
    pub entry : BackupMetadata
    pub after : Store
    pub returns : create_backup api path name (ok number) bytes store ≡ ok (entry, after)
    pub named : entry.id ≡ name
    pub numbered : entry.log_sequence_number ≡ number
    pub placed : entry.path ≡ snapshot_key default_path name
    pub there : is_snapshot_in_bucket api path name after ≡ ok true

  -- With a storage that keeps what is put, the creation of a backup returns its entry, whose path is
  -- below the default path, and the snapshot is then found under its name below the configured path.
  pub create_backup-IsCreated :
      (path name : String) (bytes : List Byte) (number : ℕ) (store : Store)
      → IsCreated path name bytes number store
  create_backup-IsCreated path name bytes number store =
      let entry : BackupMetadata = record {
        id = name;
        log_sequence_number = number;
        path = snapshot_key default_path name;
      } in
      let (mid, first) = law.put_returns (metadata_key path name) (Body.yaml entry) store in
      let (after, second) = law.put_returns (snapshot_key path name) (Body.snapshot bytes) mid in
      record {
        entry = entry;
        after = after;
        returns = unfold create_backup in rw (first, second) refl;
        named = refl;
        numbered = refl;
        placed = refl;
        there =
            unfold is_snapshot_in_bucket in
            law.head-put (snapshot_key path name) (Body.snapshot bytes) mid second;
      }
