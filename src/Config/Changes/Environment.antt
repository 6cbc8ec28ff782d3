-- ===== src/Config/Changes/Environment.antt =====
-- The variables of the environment file, read back after an update: `_update_environment` of
-- src/managers/config.py.
use Prim.Native.String.{◌++◌ as cat, char_at}
use Prim.Native.Char.{Char}
use zookeeper_k8s_operator.Base.{
  String, ◌≡◌, refl, ap, ◌∙◌, Bool, true, ◌&&◌, Option, none, some, List, All, [], ◌∷◌, eq_iff,
  arith, Bool-cases, Option-cases, inl, inr, str_eq,
}
use zookeeper_k8s_operator.Text.{truthy, split, split_once, join}
use zookeeper_k8s_operator.Text.Split.{free, split-join, char-append}
use zookeeper_k8s_operator.Text.Parts.{
  free-append, split-parts_free, or_empty, split_once-free, split_once-append,
}
use zookeeper_k8s_operator.Databag.{Databag, get, insert, insert_all, get-insert}
use zookeeper_k8s_operator.Databag.Update.{IsDict}
use zookeeper_k8s_operator.Workload.{Files, read, environment_path}
use zookeeper_k8s_operator.Config.Changes.{env_of, env_lines, update_environment}
use zookeeper_k8s_operator.Config.Changes.Written.{is_line, read-write}

-- A variable that a line `key=value` can hold.
unfoldable pub is_variable : String × String → Bool
unfolding truthy
is_variable (key, value) = truthy key && (free b'=' key && (is_line key && is_line value))

abbrev pub AllVariables : Databag → Type 0
AllVariables d = IsDict d × All (λ e. is_variable e ≡ true) d

-- The variables that the file holds.
unfoldable pub environment : Files → Databag
unfolding env_of
environment files = env_of (read environment_path files) []

-- what a key holds once `new` is written over `old`
unfoldable pub over : Option String → Option String → Option String
over none old = old
over (some v) old = some v

get-insert_all :
    (j : String) (items d : Databag)
    → IsDict items
    → get j (insert_all items d) ≡ over (get j items) (get j d)
unfolding insert_all over get
get-insert_all j [] d h = refl
get-insert_all j ((k, v) ∷ items) d h =
    ground (arith, eq_iff k j, get-insert_all j items (insert k v d) h.1, get-insert k v j d, h.0)

insert-All :
    (P : String × String → Type 0) (k v : String) (d : Databag)
    → P (k, v)
    → All P d
    → All P (insert k v d)
unfolding insert
insert-All P k v [] p h = (p, tt)
insert-All P k v ((j, w) ∷ d) p h =
    let ih = insert-All P k v d p h.1 in
    elim (Bool-cases (str_eq j k)) [ inl e ↦ rw e (p, h.1) | inr e ↦ rw e (h.0, ih) ]

insert-IsDict : (k v : String) (d : Databag) → IsDict d → IsDict (insert k v d)
unfolding insert get
insert-IsDict k v [] h = (refl, tt)
insert-IsDict k v ((j, w) ∷ d) h =
    let ih = insert-IsDict k v d h.1 in
    elim (Bool-cases (str_eq j k)) [
      | inl e ↦ rw e (ground (arith, eq_iff j k, e, h.0), h.1)
      | inr e ↦ rw e (ground (arith, eq_iff k j, eq_iff j k, e, h.0, get-insert k v j d), ih)
    ]

insert-AllVariables :
    (k v : String) (d : Databag)
    → is_variable (k, v) ≡ true
    → AllVariables d
    → AllVariables (insert k v d)
insert-AllVariables k v d p h =
    (insert-IsDict k v d h.0, insert-All (λ e. is_variable e ≡ true) k v d p h.1)

insert_all-AllVariables :
    (items d : Databag)
    → All (λ e. is_variable e ≡ true) items
    → AllVariables d
    → AllVariables (insert_all items d)
unfolding insert_all
insert_all-AllVariables [] d p h = h
insert_all-AllVariables ((k, v) ∷ items) d p h =
    insert_all-AllVariables items (insert k v d) p.1 (insert-AllVariables k v d p.0 h)

env_of-AllVariables :
    (lines : List String) (d : Databag)
    → All (λ line. is_line line ≡ true) lines
    → AllVariables d
    → AllVariables (env_of lines d)
unfolding env_of or_empty is_variable
env_of-AllVariables [] d p h = h
env_of-AllVariables (line ∷ rest) d p h =
    let parts = split_once b'=' line in
    let (k, no_sign, v) = split_once-free b'=' 10 line p.0 in
    elim (Bool-cases (truthy parts.0)) [
      | inl e ↦ rw e (
          env_of-AllVariables rest (insert parts.0 (or_empty parts.1) d) p.1
            (insert-AllVariables parts.0 (or_empty parts.1) d (ground (arith, e, k, no_sign, v)) h))
      | inr e ↦ rw e (env_of-AllVariables rest d p.1 h)
    ]

read-is_line : (path : String) (files : Files) → All (λ line. is_line line ≡ true) (read path files)
unfolding read
read-is_line path files = elim (Option-cases (get path files)) [
  | inl e ↦ rw (e, All) tt
  | inr (content, e) ↦ rw (e, All) (split-parts_free 10 content)
]

environment-AllVariables : (files : Files) → AllVariables (environment files)
unfolding environment
environment-AllVariables files =
    env_of-AllVariables (read environment_path files) [] (read-is_line environment_path files)
      (tt, tt)

abbrev sign : Char
sign = char_at "=" 0

key-truthy : (k v : String) → is_variable (k, v) ≡ true → truthy k ≡ true
unfolding is_variable
key-truthy k v h = ground (arith, h)

equals_free : (k v : String) → is_variable (k, v) ≡ true → free b'=' k ≡ true
unfolding is_variable
equals_free k v h = ground (arith, h)

-- a line of the file is the variable that it was made of
env_of-line :
    (k v : String) (rest : List String) (d : Databag)
    → is_variable (k, v) ≡ true
    → env_of (cat k (cat "=" v) ∷ rest) d ≡ env_of rest (insert k v d)
unfolding env_of
env_of-line k v rest d h =
    ap (λ (t : String). env_of (cat k t ∷ rest) d) (char-append sign v)
    ∙ rw (split_once-append sign k v (equals_free k v h)) (rw (key-truthy k v h) refl)

env_of-env_lines :
    (items d : Databag)
    → All (λ e. is_variable e ≡ true) items
    → env_of (env_lines items) d ≡ insert_all items d
unfolding env_of env_lines insert_all
env_of-env_lines [] d h = refl
env_of-env_lines ((k, v) ∷ items) d h =
    env_of-line k v (env_lines items) d h.0 ∙ env_of-env_lines items (insert k v d) h.1

line-is_line : (k v : String) → is_variable (k, v) ≡ true → is_line (cat k (cat "=" v)) ≡ true
unfolding is_variable
line-is_line k v h = free-append 10 k (cat "=" v) ∙ ground (arith, h, free-append 10 "=" v)

env_lines-is_line :
    (d : Databag)
    → All (λ e. is_variable e ≡ true) d
    → All (λ line. is_line line ≡ true) (env_lines d)
unfolding env_lines
env_lines-is_line [] h = tt
env_lines-is_line ((k, v) ∷ d) h = (line-is_line k v h.0, env_lines-is_line d h.1)

-- the variables of a file that has just been written
env_of-join :
    (d : Databag)
    → All (λ e. is_variable e ≡ true) d
    → env_of (split 10 (join "\n" (env_lines d))) [] ≡ insert_all d []
env_of-join [] h = unfold env_of env_lines insert_all join split split_once truthy in refl
env_of-join (e ∷ d) h =
    unfold env_lines in
    ap (λ lines. env_of lines []) (split-join _ (env_lines d) (env_lines-is_line (e ∷ d) h))
    ∙ env_of-env_lines (e ∷ d) [] h

over_none : (o : Option String) → over o none ≡ o
unfolding over
over_none none = refl
over_none (some v) = refl

-- After an update of the environment file by variables that a line can hold, a key that is among them has its new
-- value in the file, and every other key what it had before.
pub get-update_environment :
    (env : Databag) (files : Files) (j : String)
    → AllVariables env
    → get j (environment (update_environment env files))
      ≡ over (get j env) (get j (environment files))
get-update_environment env files j h =
    ap (get j) written
    ∙ get-insert_all j merged [] merged_variables.0
    ∙ unfold get in over_none (get j merged) ∙ get-insert_all j env (environment files) h.0
  where
    merged : Databag
    merged = insert_all env (environment files)

    merged_variables : AllVariables merged
    merged_variables =
        insert_all-AllVariables env (environment files) h.1 (environment-AllVariables files)

    written : environment (update_environment env files) ≡ insert_all merged []
    written =
        unfold environment update_environment in
        ap (λ lines. env_of lines []) (read-write _ environment_path files)
        ∙ env_of-join merged merged_variables.1
