-- ===== src/Models/App/Apart.antt =====
-- Updates of a databag that leave some keys as they were: `update` of src/core/models.py.
use zookeeper_k8s_operator.Base.{
  String, ◌≡◌, refl, ◌∙◌, Bool, true, false, not, ◌&&◌, [], ◌∷◌, all, str_eq, eq_iff, arith, keep,
  Bool-cases, inl, inr, map,
}
use zookeeper_k8s_operator.Text.{truthy}
use zookeeper_k8s_operator.Databag
use zookeeper_k8s_operator.Databag.{
  Databag, get, insert, delete, insert_all, delete_all, get-insert, get-delete,
}
use zookeeper_k8s_operator.Models.App.{update_key, update_keys}

-- The items name none of the kept keys.
abbrev pub is_apart : (String → Bool) → Databag → Bool
is_apart kept items = all (λ e. not (kept e.0)) items

module _ (kept : String → Bool) where
  ne_key : (key j : String) → kept key ≡ true → kept j ≡ false → str_eq j key ≡ false
  ne_key key j h k = elim (Bool-cases (str_eq j key)) [
    | inr other ↦ other
    | inl same ↦ absurd (clash ((eq_iff j key).0 same) h k)
  ]
    where
      clash : {a b : String} → b ≡ a → kept a ≡ true → kept b ≡ false → ⊥
      clash e h k = cc

  head_apart :
      (j v : String) (items : Databag)
      → is_apart kept ((j, v) ∷ items) ≡ true
      → (kept j ≡ false) × (is_apart kept items ≡ true)
  head_apart j v items k = split (kept j) (is_apart kept items) k
    where
      split : (a b : Bool) → not a && b ≡ true → (a ≡ false) × (b ≡ true)
      split a b k = (ground (arith, k), ground (arith, k))

  pub get-update_keys_apart :
      (key : String) (items d : Databag)
      → kept key ≡ true
      → is_apart kept items ≡ true
      → get key (update_keys items d) ≡ get key d
  unfolding update_keys update_key
  get-update_keys_apart key [] d h k = refl
  get-update_keys_apart key ((j, v) ∷ items) d h k =
      let (first, rest) = head_apart j v items k in
      get-update_keys_apart key items (update_key j v d) h rest
      ∙ one key j v d (ne_key key j h first)
    where
      one :
          (key j v : String) (d : Databag)
          → str_eq j key ≡ false
          → get key (update_key j v d) ≡ get key d
      one key j v d e = ground (arith, e, get-insert j v key d, get-delete j key d)

  get-insert_all_apart :
      (key : String) (items d : Databag)
      → kept key ≡ true
      → is_apart kept items ≡ true
      → get key (insert_all items d) ≡ get key d
  unfolding insert_all
  get-insert_all_apart key [] d h k = refl
  get-insert_all_apart key ((j, v) ∷ items) d h k =
      let (first, rest) = head_apart j v items k in
      get-insert_all_apart key items (insert j v d) h rest
      ∙ ground (arith, ne_key key j h first, get-insert j v key d)

  get-delete_all_apart :
      (key : String) (items d : Databag)
      → kept key ≡ true
      → is_apart kept items ≡ true
      → get key (delete_all (map (λ e. e.0) items) d) ≡ get key d
  unfolding delete_all
  get-delete_all_apart key [] d h k = refl
  get-delete_all_apart key ((j, v) ∷ items) d h k =
      let (first, rest) = head_apart j v items k in
      get-delete_all_apart key items (delete j d) h rest
      ∙ ground (arith, ne_key key j h first, get-delete j key d)

  keep-is_apart :
      (p : Bool → Bool) (items : Databag)
      → is_apart kept items ≡ true
      → is_apart kept (keep (λ e. p (truthy e.1)) items) ≡ true
  keep-is_apart p [] k = refl
  keep-is_apart p ((j, v) ∷ items) k = ground (arith, keep-is_apart p items, k)

  pub get-update_apart :
      (key : String) (items d : Databag)
      → kept key ≡ true
      → is_apart kept items ≡ true
      → get key (Databag.update items d) ≡ get key d
  unfolding Databag.update
  get-update_apart key items d h k =
      get-delete_all_apart key (keep (λ e. not (truthy e.1)) items) _ h (keep-is_apart not items k)
      ∙ get-insert_all_apart key (keep (λ e. truthy e.1) items) d h (keep-is_apart (λ b. b) items k)
