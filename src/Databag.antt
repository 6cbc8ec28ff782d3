-- ===== src/Databag.antt =====
-- A relation databag as a Python mapping: an association list in insertion order.
-- Code: `RelationState` of src/core/models.py.
pub mod Update
mod Tests
use zookeeper_k8s_operator.Base.{
  String, ◌≡◌, refl, Option, none, some, List, [], ◌∷◌, map, str_eq, eq_iff, arith, if◌then◌else◌,
  not, keep,
}
use zookeeper_k8s_operator.Text.{truthy}

abbrev pub Databag : Type 0
Databag = List (String × String)

-- d.get(key)
unfoldable pub get : String → Databag → Option String
get key [] = none
get key ((k, v) ∷ d) = if str_eq k key then some v else get key d

abbrev pub or_default : String → Option String → String
or_default default none = default
or_default default (some v) = v

-- d.get(key, default)
unfoldable pub get_or : String → String → Databag → String
get_or key default d = or_default default (get key d)

-- d[key] = value
unfoldable pub insert : String → String → Databag → Databag
insert key value [] = (key, value) ∷ []
insert key value ((k, v) ∷ d) =
    if str_eq k key then (key, value) ∷ d else (k, v) ∷ insert key value d

-- del d[key], which the interface accepts for an absent key
unfoldable pub delete : String → Databag → Databag
delete key [] = []
delete key ((k, v) ∷ d) = let rest = delete key d in if str_eq k key then rest else (k, v) ∷ rest

-- d.update(items)
unfoldable pub insert_all : Databag → Databag → Databag
unfolding insert
insert_all [] d = d
insert_all ((k, v) ∷ items) d = insert_all items (insert k v d)

unfoldable pub delete_all : List String → Databag → Databag
unfolding delete
delete_all [] d = d
delete_all (k ∷ keys) d = delete_all keys (delete k d)

-- `RelationState.update`, where the relation exists: empty values delete their fields, after the
-- other fields are written.
unfoldable pub update : Databag → Databag → Databag
unfolding insert_all delete_all truthy
update items d =
    let delete_fields = keep (λ e. not (truthy e.1)) items in
    let update_content = keep (λ e. truthy e.1) items in
    delete_all (map (λ e. e.0) delete_fields) (insert_all update_content d)

pub get-insert :
    (key value j : String) (d : Databag)
    → get j (insert key value d) ≡ (if str_eq key j then some value else get j d)
unfolding get insert
get-insert key value j [] = refl
get-insert key value j ((k, v) ∷ d) =
    ground (arith, eq_iff key j, eq_iff k key, eq_iff k j, get-insert key value j d)

pub get-delete :
    (key j : String) (d : Databag) → get j (delete key d) ≡ (if str_eq key j then none else get j d)
unfolding get delete
get-delete key j [] = ground arith
get-delete key j ((k, v) ∷ d) =
    ground (arith, eq_iff key j, eq_iff k key, eq_iff k j, get-delete key j d)
