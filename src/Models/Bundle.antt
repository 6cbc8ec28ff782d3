-- ===== src/Models/Bundle.antt =====
-- `chain` and `bundle` of `ZKServer`, src/core/models.py.
pub mod Distinct
use zookeeper_k8s_operator.Base.{
  String, Bool, not, ◌&&◌, List, [], ◌∷◌, str_eq, keep, if◌then◌else◌,
}
use zookeeper_k8s_operator.Text.{truthy}
use zookeeper_k8s_operator.Databag.{get_or}
use zookeeper_k8s_operator.Models.Server.{ZkServer, certificate, ca_cert}

-- The distinct items, sorted by their first index: sorted(set(xs), key=xs.index).
unfoldable pub distinct_by_index : List String → List String
distinct_by_index [] = []
distinct_by_index (x ∷ xs) = x ∷ keep (λ y. not (str_eq x y)) (distinct_by_index xs)

is_empty : List String → Bool
is_empty [] = Bool.true
is_empty (x ∷ xs) = Bool.false

module _ (loads : String → List String) where
  -- `json.loads(… "null") or []`
  unfoldable pub chain : ZkServer → List String
  unfolding get_or
  chain s = loads (get_or "chain" "null" s.relation_data)

  unfoldable pub bundle : ZkServer → List String
  unfolding chain distinct_by_index truthy is_empty
  bundle s =
      if truthy (certificate s) && (truthy (ca_cert s) && not (is_empty (chain s)))
      then distinct_by_index (certificate s ∷ ca_cert s ∷ chain s)
      else []
