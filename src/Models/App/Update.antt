-- ===== src/Models/App/Update.antt =====
-- What a reader sees after `ZKCluster.update` of src/core/models.py.
use zookeeper_k8s_operator.Base.{String, ◌≡◌, refl, ap, [], ◌∷◌, arith, eq_iff}
use zookeeper_k8s_operator.Databag.{Databag, get, get_or, or_default, get-insert, get-delete}
use zookeeper_k8s_operator.Databag.Update.{IsDict, overlay}
use zookeeper_k8s_operator.Models.App.{update_key, update_keys}

pub get-update_key :
    (j k v : String) (d : Databag)
    → get j (update_key k v d) ≡ overlay (get j ((k, v) ∷ [])) (get j d)
unfolding update_key overlay get
get-update_key j k v d = ground (arith, get-insert k v j d, get-delete k j d)

-- After an update by a mapping, secrets and plain fields read alike: a named key holds its new value, or is gone where that is
-- empty, and other keys are as before.
pub get-update_keys :
    (j : String) (items d : Databag)
    → IsDict items
    → get j (update_keys items d) ≡ overlay (get j items) (get j d)
unfolding update_keys get overlay
get-update_keys j [] d h = refl
get-update_keys j ((k, v) ∷ items) d h =
    ground
      (arith, eq_iff k j, get-update_key j k v d, get-update_keys j items (update_key k v d) h.1)

pub get_or-update_keys :
    (j default : String) (items d : Databag)
    → IsDict items
    → get_or j default (update_keys items d) ≡ or_default default (overlay (get j items) (get j d))
unfolding get_or
get_or-update_keys j default items d h = ap (or_default default) (get-update_keys j items d h)
