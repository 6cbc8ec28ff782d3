-- ===== src/Models/App/Added.antt =====
-- The units that `added_unit_ids` of src/core/models.py counts as members of the quorum.
use zookeeper_k8s_operator.Base.{
  ℕ, ◌≡◌, refl, ◌||◌, [], ◌∷◌, ◌==◌, arith, eq_iff, ap, ◌∙◌, some, if◌then◌else◌,
}
use zookeeper_k8s_operator.Text.{str}
use zookeeper_k8s_operator.Text.{str_inj}
use zookeeper_k8s_operator.Databag.{Databag, get}
use zookeeper_k8s_operator.Databag.Update.{overlay}
use zookeeper_k8s_operator.Models.App.{is_added, update_keys}
use zookeeper_k8s_operator.Models.App.Update.{get-update_keys}
use zookeeper_k8s_operator.Text.{truthy}

get-added :
    (n m : ℕ) (d : Databag)
    → get (str m) (update_keys ((str n, "added") ∷ []) d)
      ≡ (if m == n then some "added" else get (str m) d)
unfolding get overlay truthy
get-added n m d =
    get-update_keys (str m) ((str n, "added") ∷ []) d (refl, tt)
    ∙ ground (arith, eq_iff (str n) (str m), str_inj n m, same)
  where
    same : m ≡ n → str m ≡ str n
    same e = ap str e

-- Marking a unit as added makes it count as added, and leaves the other units as they were.
is_added-update_keys :
    (n m : ℕ) (d : Databag)
    → is_added (update_keys ((str n, "added") ∷ []) d) m ≡ (m == n) || is_added d m
is_added-update_keys n m d = unfold is_added in ground (arith, get-added n m d)
