-- ===== src/Backups/Recent.antt =====
-- Which backups are listed: `list_backups` of src/managers/backup.py.
use zookeeper_k8s_operator.Base.{
  Bool, any, ◌||◌, ◌∙◌, String, ℕ, zero, suc, ◌≤◌, ◌≡◌, refl, leb, inl, inr, Bool-cases, List, [],
  ◌∷◌, keep, length, All, true, ok, arith, ap, >>=-returns,
}
use zookeeper_k8s_operator.Text.{ends_with}
use zookeeper_k8s_operator.Stream.{take, drop}
use zookeeper_k8s_operator.Backups.{
  RemoteFile, BackupMetadata, ObjectStore, backups_limit, insert_newest, newest_first, recent,
  download_all, list_backups,
}

-- Each file is at least as recent as those after it.
abbrev pub IsNewestFirst : List RemoteFile → Type 0
IsNewestFirst [] = Unit
IsNewestFirst (f ∷ fs) = All (λ g. g.last_modified ≤ f.last_modified) fs × IsNewestFirst fs

All-insert_newest :
    (P : RemoteFile → Type 0) (f : RemoteFile) (gs : List RemoteFile)
    → P f
    → All P gs
    → All P (insert_newest f gs)
unfolding insert_newest
All-insert_newest P f [] h k = (h, tt)
All-insert_newest P f (g ∷ gs) h k = ground (arith, h, k, All-insert_newest P f gs h k.1)

All-trans :
    (f g : RemoteFile) (gs : List RemoteFile)
    → g.last_modified ≤ f.last_modified
    → All (λ k. k.last_modified ≤ g.last_modified) gs
    → All (λ k. k.last_modified ≤ f.last_modified) gs
All-trans f g [] h k = tt
All-trans f g (x ∷ gs) h k = (omega (arith, h, k.0), All-trans f g gs h k.1)

insert_newest-IsNewestFirst :
    (f : RemoteFile) (gs : List RemoteFile) → IsNewestFirst gs → IsNewestFirst (insert_newest f gs)
unfolding insert_newest
insert_newest-IsNewestFirst f [] h = (tt, tt)
insert_newest-IsNewestFirst f (g ∷ gs) h = elim (Bool-cases (leb g.last_modified f.last_modified)) [
  | inl newer ↦
      let le = leb-le g.last_modified f.last_modified newer in
      rw newer ((le, All-trans f g gs le h.0), h)
  | inr older ↦ rw older (
    All-insert_newest (λ k. k.last_modified ≤ g.last_modified) f gs (ground (arith, older)) h.0,
    insert_newest-IsNewestFirst f gs h.1,
  )
]
  where
    leb-le : (a b : ℕ) → leb a b ≡ true → a ≤ b
    leb-le a b h = ground (arith, h)

length-insert_newest :
    (f : RemoteFile) (gs : List RemoteFile) → length (insert_newest f gs) ≡ suc (length gs)
unfolding insert_newest
length-insert_newest f [] = refl
length-insert_newest f (g ∷ gs) = ground (arith, length-insert_newest f gs)

newest_first-IsNewestFirst : (fs : List RemoteFile) → IsNewestFirst (newest_first fs)
unfolding newest_first
newest_first-IsNewestFirst [] = tt
newest_first-IsNewestFirst (f ∷ fs) =
    insert_newest-IsNewestFirst f (newest_first fs) (newest_first-IsNewestFirst fs)

-- A file that is among the first `n` is at least as recent as one that is not.
All-take : (P : RemoteFile → Type 0) (n : ℕ) (fs : List RemoteFile) → All P fs → All P (take n fs)
All-take P zero fs h = tt
All-take P (suc n) [] h = tt
All-take P (suc n) (f ∷ fs) h = (h.0, All-take P n fs h.1)

All-drop : (P : RemoteFile → Type 0) (n : ℕ) (fs : List RemoteFile) → All P fs → All P (drop n fs)
All-drop P zero fs h = h
All-drop P (suc n) [] h = tt
All-drop P (suc n) (f ∷ fs) h = All-drop P n fs h.1

take-newest :
    (n : ℕ) (fs : List RemoteFile)
    → IsNewestFirst fs
    → All (λ f. All (λ g. g.last_modified ≤ f.last_modified) (drop n fs)) (take n fs)
take-newest zero fs h = tt
take-newest (suc n) [] h = tt
take-newest (suc n) (f ∷ fs) h =
    (All-drop (λ g. g.last_modified ≤ f.last_modified) n fs h.0, take-newest n fs h.1)

take-IsNewestFirst : (n : ℕ) (fs : List RemoteFile) → IsNewestFirst fs → IsNewestFirst (take n fs)
take-IsNewestFirst zero fs h = tt
take-IsNewestFirst (suc n) [] h = tt
take-IsNewestFirst (suc n) (f ∷ fs) h =
    (All-take (λ g. g.last_modified ≤ f.last_modified) n fs h.0, take-IsNewestFirst n fs h.1)

length-take : {A : Type 0} (n : ℕ) (xs : List A) → length (take n xs) ≤ n
length-take zero xs = omega arith
length-take (suc n) [] = omega arith
length-take (suc n) (x ∷ xs) = omega (arith, length-take n xs)

-- the metadata files that are not listed
abbrev pub left_out : List RemoteFile → List RemoteFile
left_out fs = drop backups_limit (newest_first (keep (λ f. ends_with f.key ".yaml") fs))

length-download_all :
    {Byte Store : Type 0} (api : ObjectStore Byte Store) (path : String) (fs : List RemoteFile)
    (store : Store) {entries : List BackupMetadata}
    → download_all api path fs store ≡ ok entries
    → length entries ≡ length fs
unfolding download_all
length-download_all api path [] store e = ground (arith, e)
length-download_all api path (f ∷ fs) store {entries} e =
    let (entry, _, tail) = >>=-returns (api.metadata f.key store) _ e in
    let (rest, got, all) = >>=-returns (download_all api path fs store) _ tail in
    rw (← outcome_inj (entry ∷ rest) entries all)
      (ap suc (length-download_all api path fs store got))
  where
    outcome_inj : (xs ys : List BackupMetadata) → ok xs ≡ ok ys → xs ≡ ys
    outcome_inj xs ys h = cc

any-insert_newest :
    (p : RemoteFile → Bool) (f : RemoteFile) (gs : List RemoteFile)
    → any p (insert_newest f gs) ≡ (p f || any p gs)
unfolding insert_newest
any-insert_newest p f [] = refl
any-insert_newest p f (g ∷ gs) = ground (arith, any-insert_newest p f gs)

any-newest_first :
    (p : RemoteFile → Bool) (fs : List RemoteFile) → any p (newest_first fs) ≡ any p fs
unfolding newest_first
any-newest_first p [] = refl
any-newest_first p (f ∷ fs) =
    ground (arith, any-insert_newest p f (newest_first fs), any-newest_first p fs)

any-take-drop :
    (p : RemoteFile → Bool) (n : ℕ) (fs : List RemoteFile)
    → (any p (take n fs) || any p (drop n fs)) ≡ any p fs
any-take-drop p zero fs = refl
any-take-drop p (suc n) [] = refl
any-take-drop p (suc n) (f ∷ fs) = ground (arith, any-take-drop p n fs)

-- The files that are downloaded come newest first, none of the metadata files that are left out
-- is newer than one of them, and the two together are the metadata files of the bucket.
pub recent_lem :
    (fs : List RemoteFile)
    → IsNewestFirst (recent fs)
      × All (λ f. All (λ g. g.last_modified ≤ f.last_modified) (left_out fs)) (recent fs)
      × ((p : RemoteFile → Bool)
          → (any p (recent fs) || any p (left_out fs))
            ≡ any p (keep (λ f. ends_with f.key ".yaml") fs))
unfolding recent
recent_lem fs =
    let found = keep (λ f. ends_with f.key ".yaml") fs in
    let sorted = newest_first-IsNewestFirst found in
    (
      take-IsNewestFirst backups_limit _ sorted,
      take-newest backups_limit _ sorted,
      (λ p. any-take-drop p backups_limit (newest_first found) ∙ any-newest_first p found),
    )

-- However many backups there are, at most twenty are listed.
pub length-list_backups :
    {Byte Store : Type 0} (api : ObjectStore Byte Store) (path : String) (store : Store)
    {entries : List BackupMetadata}
    → list_backups api path store ≡ ok entries
    → length entries ≤ 20
unfolding list_backups recent
length-list_backups api path store e =
    let (fs, _, got) = >>=-returns (api.files path store) _ e in
    let sorted = newest_first (keep (λ f. ends_with f.key ".yaml") fs) in
    omega (
      arith,
      length-download_all api path (take backups_limit sorted) store got,
      length-take backups_limit sorted,
    )
