-- ===== src/Databag/Update.antt =====
-- What a reader sees after `RelationState.update` of src/core/models.py.
use zookeeper_k8s_operator.Base.{
  String, ◌≡◌, refl, ap, Option, none, some, [], ◌∷◌, map, eq_iff, arith, if◌then◌else◌, not, keep,
}
use zookeeper_k8s_operator.Text.{truthy}
use zookeeper_k8s_operator.Databag.{
  Databag, get, get_or, or_default, insert, delete, insert_all, delete_all, update, get-insert,
  get-delete,
}

-- The keys of a Python mapping are distinct.
abbrev pub IsDict : Databag → Type 0
IsDict [] = Unit
IsDict ((k, v) ∷ d) = (get k d ≡ none) × IsDict d

-- The value under a key once a mapping `items` is written over `old`, empty values deleting.
unfoldable pub overlay : Option String → Option String → Option String
overlay none old = old
overlay (some v) old = if truthy v then some v else none

written : Option String → Option String → Option String
written none old = old
written (some v) old = if truthy v then some v else old

cleared : Option String → Option String → Option String
cleared none old = old
cleared (some v) old = if truthy v then old else none

get-insert_all :
    (j : String) (items d : Databag)
    → IsDict items
    → get j (insert_all (keep (λ e. truthy e.1) items) d) ≡ written (get j items) (get j d)
unfolding insert_all written get
get-insert_all j [] d h = refl
get-insert_all j ((k, v) ∷ items) d h = ground (
  arith,
  eq_iff k j,
  get-insert_all j items d h.1,
  get-insert_all j items (insert k v d) h.1,
  get-insert k v j d,
)

get-delete_all :
    (j : String) (items d : Databag)
    → IsDict items
    → get j (delete_all (map (λ e. e.0) (keep (λ e. not (truthy e.1)) items)) d)
      ≡ cleared (get j items) (get j d)
unfolding delete_all cleared get
get-delete_all j [] d h = refl
get-delete_all j ((k, v) ∷ items) d h = ground (
  arith,
  eq_iff k j,
  get-delete_all j items d h.1,
  get-delete_all j items (delete k d) h.1,
  get-delete k j d,
)

-- After an update by a mapping a key holds its new value, is gone where that value is empty, and is as before
-- where the update does not name it.
pub get-update :
    (j : String) (items d : Databag)
    → IsDict items
    → get j (update items d) ≡ overlay (get j items) (get j d)
get-update j items d h =
    unfold update overlay written cleared in
    ground (
      arith,
      get-insert_all j items d h,
      get-delete_all j items (insert_all (keep (λ e. truthy e.1) items) d) h,
    )

pub get_or-update :
    (j default : String) (items d : Databag)
    → IsDict items
    → get_or j default (update items d) ≡ or_default default (overlay (get j items) (get j d))
unfolding get_or
get_or-update j default items d h = ap (or_default default) (get-update j items d h)
