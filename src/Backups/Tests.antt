-- ===== src/Backups/Tests.antt =====
-- Runs of src/managers/backup.py on a storage that knows its keys, and the theorems at concrete inputs.
use zookeeper_k8s_operator.Text.{ends_with}
use zookeeper_k8s_operator.Base.{
  Bool, keep, ◌||◌, ℕ, String, ◌≡◌, ◌≤◌, refl, List, [], ◌∷◌, All, any, length, str_eq, arith,
  eq_refl, ok, true,
}
use zookeeper_k8s_operator.Backups.{RemoteFile, BackupMetadata, ObjectStore, recent, list_backups}
use zookeeper_k8s_operator.Backups.Recent.{IsNewestFirst, left_out, recent_lem, length-list_backups}
use zookeeper_k8s_operator.Backups.Created.{IsStore, IsCreated, create_backup-IsCreated}

abbrev old_file : RemoteFile
old_file = record { key = "backups/1/metadata.yaml"; last_modified = 100 }

abbrev new_file : RemoteFile
new_file = record { key = "backups/2/metadata.yaml"; last_modified = 200 }

abbrev stream_file : RemoteFile
stream_file = record { key = "backups/2/snapshot"; last_modified = 300 }

abbrev bucket : List RemoteFile
bucket = old_file ∷ stream_file ∷ new_file ∷ []

abbrev entry_of : String → BackupMetadata
entry_of key = record { id = key; log_sequence_number = 7; path = key }

-- a storage whose contents are the keys that were put
abbrev keys : ObjectStore ℕ (List String)
keys = record {
  put = λ key body store. ok (key ∷ store);
  head = λ key store. ok (any (str_eq key) store);
  files = λ path store. ok bucket;
  metadata = λ key store. ok (entry_of key);
}

keys-IsStore : IsStore keys
keys-IsStore = record {
  put_returns = λ key body store. (key ∷ store, refl);
  head-put = λ key body store e. found key store e;
}
  where
    found :
        (key : String) (store : List String) {after : List String}
        → ok (key ∷ store) ≡ ok after
        → ok (any (str_eq key) after) ≡ ok true
    found key store e = ground (arith, e, eq_refl key)

recent-bucket : recent bucket ≡ new_file ∷ old_file ∷ []
unfolding recent
recent-bucket = refl

recent_lem_example :
    IsNewestFirst (recent bucket)
    × All (λ f. All (λ g. g.last_modified ≤ f.last_modified) (left_out bucket)) (recent bucket)
    × ((p : RemoteFile → Bool)
        → (any p (recent bucket) || any p (left_out bucket))
          ≡ any p (keep (λ f. ends_with f.key ".yaml") bucket))
recent_lem_example = recent_lem bucket

list_backups-keys :
    list_backups keys "backups" []
    ≡ ok (entry_of "backups/2/metadata.yaml" ∷ entry_of "backups/1/metadata.yaml" ∷ [])
unfolding list_backups recent
list_backups-keys = refl

length-list_backups_example :
    length (entry_of "backups/2/metadata.yaml" ∷ entry_of "backups/1/metadata.yaml" ∷ []) ≤ 20
length-list_backups_example = length-list_backups keys "backups" [] list_backups-keys

create_backup-IsCreated_example : IsCreated keys keys-IsStore "backups" "3" (1 ∷ 2 ∷ []) 8 []
create_backup-IsCreated_example =
    create_backup-IsCreated keys keys-IsStore "backups" "3" (1 ∷ 2 ∷ []) 8 []
