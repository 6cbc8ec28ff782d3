-- ===== src/Quorum/Notes.antt =====
-- What the mapping of `_get_updated_servers` of src/managers/quorum.py says of one server.
use zookeeper_k8s_operator.Base.{
  ℕ, String, ◌≡◌, refl, ap, ◌∙◌, Bool, Bool-cases, inl, inr, ◌&&◌, true, false, not, ◌||◌, Option,
  none, some, List, [], ◌∷◌, all, str_eq, eq_iff, if◌then◌else◌, ok, raised, other_error, arith,
  >>=-returns,
}
use zookeeper_k8s_operator.Databag.{Databag, get, insert, get-insert}
use zookeeper_k8s_operator.Databag.Update.{IsDict}
use zookeeper_k8s_operator.Quorum.{
  server_number, unit_key, mark_server, note_server, note_servers, str_mem,
}

insert-IsDict : (k v : String) (d : Databag) → IsDict d → IsDict (insert k v d)
unfolding insert get
insert-IsDict k v [] h = (refl, tt)
insert-IsDict k v ((j, w) ∷ d) h = elim (Bool-cases (str_eq j k)) [
  | inl same ↦ rw same (moved d ((eq_iff j k).0 same) h.0, h.1)
  | inr other ↦ rw other (kept j k v d (get-insert k v j d) other h.0, insert-IsDict k v d h.1)
]
  where
    moved : {j k : String} (d : Databag) → j ≡ k → get j d ≡ none → get k d ≡ none
    moved d e h = cc

    kept :
        (j k v : String) (d : Databag)
        → get j (insert k v d) ≡ (if str_eq k j then some v else get j d)
        → str_eq j k ≡ false
        → get j d ≡ none
        → get j (insert k v d) ≡ none
    kept j k v d e other h = ground (arith, e, h, other, eq_iff j k, eq_iff k j)

IsDict-ok : {d e : Databag} → ok d ≡ ok e → IsDict d → IsDict e
IsDict-ok {d} {e} same h = rw (inside same) at h
  where
    inside : ok d ≡ ok e → d ≡ e
    inside same = cc

-- Whether the string names the server whose record has this key.
abbrev pub names : String → String → Bool
names key t = elim (server_number t) [ none ↦ false | some m ↦ str_eq (unit_key m) key ]

-- Another string than `s` names another server.
abbrev pub is_alone : String → String → String → Bool
is_alone key s t = str_eq s t || not (names key t)

module _ (added removed : List String) (key s : String) (own : names key s ≡ true) where
  unfoldable pub verdict : Option String → Option String
  verdict old =
      if str_mem s added then some "added" else if str_mem s removed then some "removed" else old

  get-mark_server :
      (t : String) (m : ℕ) (d : Databag)
      → server_number t ≡ some m
      → is_alone key s t ≡ true
      → get key (mark_server added removed t d m)
        ≡ (if str_eq s t then verdict (get key d) else get key d)
  unfolding mark_server verdict
  get-mark_server t m d e alone = elim (Bool-cases (str_eq s t)) [
    | inl same ↦ rw same (
        ground (
          arith,
          marks ((eq_iff s t).0 same),
          added_alike ((eq_iff s t).0 same),
          removed_alike ((eq_iff s t).0 same),
          get-insert (unit_key m) "added" key d,
          get-insert (unit_key m) "removed" key d,
        ))
    | inr other ↦ rw other (
        ground (
          arith,
          others (rw (other, e, names) at alone),
          get-insert (unit_key m) "added" key d,
          get-insert (unit_key m) "removed" key d,
        ))
  ]
    where
      names_it : (t : String) → s ≡ t → names key t ≡ true
      names_it t same = rw same at own

      marks : s ≡ t → str_eq (unit_key m) key ≡ true
      marks same = rw (e, names) at (names_it t same)

      added_alike : s ≡ t → str_mem t added ≡ str_mem s added
      added_alike same = cc

      removed_alike : s ≡ t → str_mem t removed ≡ str_mem s removed
      removed_alike same = cc

      others : not (str_eq (unit_key m) key) ≡ true → str_eq (unit_key m) key ≡ false
      others h = ground (arith, h)

  after_note :
      (t : String) (d e : Databag)
      → note_server added removed t d ≡ ok e
      → is_alone key s t ≡ true
      → get key e ≡ (if str_eq s t then verdict (get key d) else get key d)
  unfolding note_server
  after_note t d e returned alone = by_number (server_number t) refl returned
    where
      is_ok : {a b : Databag} → ok a ≡ ok b → a ≡ b
      is_ok h = cc

      by_number :
          (n : Option ℕ)
          → server_number t ≡ n
          → elim n [ none ↦ raised other_error | some m ↦ ok (mark_server added removed t d m) ]
            ≡ ok e
          → get key e ≡ (if str_eq s t then verdict (get key d) else get key d)
      by_number none q h = cc
      by_number (some m) q h = rw (is_ok h) at (get-mark_server t m d q alone)

  pub after_notes :
      (l : List String) (d : Databag) {e : Databag}
      → note_servers added removed l d ≡ ok e
      → all (is_alone key s) l ≡ true
      → get key e ≡ (if str_mem s l then verdict (get key d) else get key d)
  unfolding note_servers str_mem
  after_notes [] d {e} returned alone = ap (get key) (is_ok returned)
    where
      is_ok : {a b : Databag} → ok a ≡ ok b → b ≡ a
      is_ok h = cc
  after_notes (t ∷ l) d {e} returned alone =
      let (mid, first, rest) = >>=-returns (note_server added removed t d) _ returned in
      let (head, tail) = both alone in
      after_notes l mid rest tail ∙ twice (str_eq s t) _ _ (after_note t d mid first head)
    where
      both : {a b : Bool} → a && b ≡ true → (a ≡ true) × (b ≡ true)
      both {a} {b} h = (ground (arith, h), ground (arith, h))

      twice :
          (a b : Bool) (x : Option String) {y : Option String}
          → y ≡ (if a then verdict x else x)
          → (if b then verdict y else y) ≡ (if a || b then verdict x else x)
      twice a b x e = unfold verdict in ground (arith, e)

module _ (added removed : List String) where
  mark_server-IsDict :
      (t : String) (d : Databag) (m : ℕ) → IsDict d → IsDict (mark_server added removed t d m)
  unfolding mark_server
  mark_server-IsDict t d m h = elim (Bool-cases (str_mem t added)) [
    | inl new ↦ rw new (insert-IsDict (unit_key m) "added" d h)
    | inr old ↦ elim (Bool-cases (str_mem t removed)) [
      | inl gone ↦ rw (old, gone) (insert-IsDict (unit_key m) "removed" d h)
      | inr kept ↦ rw (old, kept) h
    ]
  ]

  note_server-IsDict :
      (t : String) (d : Databag) (n : Option ℕ) {e : Databag}
      → elim n [ none ↦ raised other_error | some m ↦ ok (mark_server added removed t d m) ] ≡ ok e
      → IsDict d
      → IsDict e
  note_server-IsDict t d none returned h = cc
  note_server-IsDict t d (some m) returned h = IsDict-ok returned (mark_server-IsDict t d m h)

  pub note_servers-IsDict :
      (l : List String) (d : Databag) {e : Databag}
      → note_servers added removed l d ≡ ok e
      → IsDict d
      → IsDict e
  unfolding note_servers note_server
  note_servers-IsDict [] d returned h = IsDict-ok returned h
  note_servers-IsDict (t ∷ l) d returned h =
      let (mid, first, rest) = >>=-returns (note_server added removed t d) _ returned in
      note_servers-IsDict l mid rest (note_server-IsDict t d (server_number t) first h)
