-- ===== src/Stream/Reads.antt =====
-- Reads of a stream, one after the other: `read` of src/managers/backup.py.
use mathlib.Core.Path.{ap₂}
use mathlib.Core.List.{append_assoc, append-nil}
use zookeeper_k8s_operator.Base.{
  ℕ, zero, suc, ◌+◌, ◌-◌, ◌≤◌, ◌<◌, ◌≡◌, refl, ap, sym, ◌∙◌, List, [], ◌∷◌, ◌++◌, ltb, leb, length,
  arith, Bool-cases, inl, inr, true, false, length-append, ◌⊎◌,
}
use zookeeper_k8s_operator.Stream.{take, drop, Adapter, fill, read}

module _ {ℓ} {A : Type ℓ} where
  abbrev concat : List (List A) → List A
  concat [] = []
  concat (x ∷ xs) = x ++ concat xs

  -- the bytes that are still to be read
  unfoldable pub content : Adapter A → List A
  content a = drop a.buffer_offset a.buffer ++ concat a.streaming_source

  abbrev pub IsValid : Adapter A → Type 0
  IsValid a = a.buffer_offset ≤ length a.buffer

  drop-append : (n : ℕ) (xs ys : List A) → n ≤ length xs → drop n (xs ++ ys) ≡ drop n xs ++ ys
  drop-append zero xs ys h = refl
  drop-append (suc n) [] ys h = absurd (omega arith)
  drop-append (suc n) (x ∷ xs) ys h = drop-append n xs ys (omega arith)

  take-append : (n : ℕ) (xs ys : List A) → n ≤ length xs → take n (xs ++ ys) ≡ take n xs
  take-append zero xs ys h = refl
  take-append (suc n) [] ys h = absurd (omega arith)
  take-append (suc n) (x ∷ xs) ys h = ap (◌∷◌ x) (take-append n xs ys (omega arith))

  drop-nil : (n : ℕ) → drop {A = A} n [] ≡ []
  drop-nil zero = refl
  drop-nil (suc n) = refl

  drop-drop : (m n : ℕ) (xs : List A) → drop n (drop m xs) ≡ drop (m + n) xs
  drop-drop zero n xs = ap (λ (k : ℕ). drop k xs) (omega arith)
  drop-drop (suc m) n [] = drop-nil n ∙ sym (drop-nil (suc m + n))
  drop-drop (suc m) n (x ∷ xs) = drop-drop m n xs ∙ ap (λ (k : ℕ). drop k (x ∷ xs)) (next m n)
    where
      next : (m n : ℕ) → suc (m + n) ≡ suc m + n
      next m n = omega arith

  length-drop : (n : ℕ) (xs : List A) → length (drop n xs) ≡ length xs - n
  length-drop zero xs = omega arith
  length-drop (suc n) [] = omega arith
  length-drop (suc n) (x ∷ xs) = omega (arith, length-drop n xs)

  take_all : (n : ℕ) (xs : List A) → length xs ≤ n → take n xs ≡ xs
  take_all zero [] h = refl
  take_all zero (x ∷ xs) h = absurd (omega arith)
  take_all (suc n) [] h = refl
  take_all (suc n) (x ∷ xs) h = ap (◌∷◌ x) (take_all n xs (omega arith))

  drop_all : (n : ℕ) (xs : List A) → length xs ≤ n → drop n xs ≡ []
  drop_all zero [] h = refl
  drop_all zero (x ∷ xs) h = absurd (omega arith)
  drop_all (suc n) [] h = refl
  drop_all (suc n) (x ∷ xs) h = drop_all n xs (omega arith)

  -- What the loop leaves: the same bytes, and enough of them in the buffer unless the stream is at
  -- its end.
  record Filled (n offset : ℕ) (bytes : List A) (source : List (List A)) (buffer : List A)
      : Type ℓ where
    same : drop offset buffer ++ concat source ≡ bytes
    within : offset ≤ length buffer
    enough : (n ≤ length buffer - offset) ⊎ (source ≡ [])

  fill-Filled :
      (n offset : ℕ) (source : List (List A)) (buffer : List A)
      → offset ≤ length buffer
      → Filled n offset
          (drop offset buffer ++ concat source)
          (fill n offset source buffer).0
          (fill n offset source buffer).1
  unfolding fill
  fill-Filled n offset [] buffer h = record { same = refl; within = h; enough = inr refl }
  fill-Filled n offset (chunk ∷ rest) buffer h =
      step (fill-Filled n offset rest (buffer ++ chunk) longer)
        (Bool-cases (ltb (length buffer - offset) n))
    where
      longer : offset ≤ length (buffer ++ chunk)
      longer = omega (arith, length-append buffer chunk)

      joined :
          drop offset (buffer ++ chunk) ++ concat rest
          ≡ drop offset buffer ++ (chunk ++ concat rest)
      joined =
          ap (λ (l : List A). l ++ concat rest) (drop-append offset buffer chunk h)
          ∙ append_assoc (drop offset buffer) chunk (concat rest)

      step :
          Filled n offset
            (drop offset (buffer ++ chunk) ++ concat rest)
            (fill n offset rest (buffer ++ chunk)).0
            (fill n offset rest (buffer ++ chunk)).1
          → (ltb (length buffer - offset) n ≡ true) ⊎ (ltb (length buffer - offset) n ≡ false)
          → Filled n offset
              (drop offset buffer ++ (chunk ++ concat rest))
              (fill n offset (chunk ∷ rest) buffer).0
              (fill n offset (chunk ∷ rest) buffer).1
      step ih (inl low) = rw low (rw (← joined) ih)
      step ih (inr full) = rw full (record { same = refl; within = h; enough = inl (ground arith) })

  -- From a valid adapter a read returns the next bytes, as many as were asked for or all that are
  -- left, and leaves the others in a valid adapter.
  pub read_lem :
      (n : ℕ) (a : Adapter A)
      → IsValid a
      → ((read n a).0 ≡ take n (content a))
        × (content (read n a).1 ≡ drop n (content a))
        × IsValid (read n a).1
  unfolding read content
  read_lem n a h = elim (Bool-cases (leb n (length buffer - a.buffer_offset))) [
    | inl full ↦ rw full (
      sym (take-append n (drop a.buffer_offset buffer) (concat source) (fits full))
          ∙ ap (take n) filled.same,
      ap (λ (l : List A). l ++ concat source) (sym (drop-drop a.buffer_offset n buffer))
          ∙ sym (drop-append n (drop a.buffer_offset buffer) (concat source) (fits full))
          ∙ ap (drop n) filled.same,
      omega (arith, fits full, filled.within, length-drop a.buffer_offset buffer),
    )
    | inr short ↦ rw short (last short)
  ]
    where
      source : List (List A)
      source = (fill n a.buffer_offset a.streaming_source a.buffer).0

      buffer : List A
      buffer = (fill n a.buffer_offset a.streaming_source a.buffer).1

      filled : Filled n a.buffer_offset (content a) source buffer
      filled = fill-Filled n a.buffer_offset a.streaming_source a.buffer h

      fits :
          leb n (length buffer - a.buffer_offset) ≡ true → n ≤ length (drop a.buffer_offset buffer)
      fits full = ground (arith, length-drop a.buffer_offset buffer)

      at_end : leb n (length buffer - a.buffer_offset) ≡ false → source ≡ []
      at_end short = elim filled.enough [ inl more ↦ absurd (ground arith) | inr e ↦ e ]

      whole :
          leb n (length buffer - a.buffer_offset) ≡ false → drop a.buffer_offset buffer ≡ content a
      whole short =
          sym (append-nil (drop a.buffer_offset buffer))
          ∙ ap (λ (l : List (List A)). drop a.buffer_offset buffer ++ concat l) (sym (at_end short))
          ∙ filled.same

      small : leb n (length buffer - a.buffer_offset) ≡ false → length (content a) ≤ n
      small short = ground (arith, length-drop a.buffer_offset buffer, ap length (whole short))

      last :
          leb n (length buffer - a.buffer_offset) ≡ false
          → (drop a.buffer_offset buffer ≡ take n (content a))
            × (concat source ≡ drop n (content a))
            × (0 ≤ 0)
      last short = (
        whole short ∙ sym (take_all n (content a) (small short)),
        ap concat (at_end short) ∙ sym (drop_all n (content a) (small short)),
        omega arith,
      )

  -- the data of successive reads, until `fuel` reads are made
  unfoldable pub read_many : ℕ → ℕ → Adapter A → List A
  unfolding read
  read_many zero n a = []
  read_many (suc fuel) n a = (read n a).0 ++ read_many fuel n (read n a).1

  take-drop : (n : ℕ) (xs : List A) → take n xs ++ drop n xs ≡ xs
  take-drop zero xs = refl
  take-drop (suc n) [] = refl
  take-drop (suc n) (x ∷ xs) = ap (◌∷◌ x) (take-drop n xs)

  -- From a valid adapter, with reads of a positive size, as many reads as there are bytes give the whole stream: no byte
  -- is lost, repeated or moved.
  pub read_many_lem :
      (fuel n : ℕ) (a : Adapter A)
      → IsValid a
      → 0 < n
      → length (content a) ≤ fuel
      → read_many fuel n a ≡ content a
  unfolding read_many
  read_many_lem zero n a h p e = sym (empty (content a) (omega arith))
    where
      empty : (xs : List A) → length xs ≡ 0 → xs ≡ []
      empty [] q = refl
      empty (x ∷ xs) q = absurd (omega arith)
  read_many_lem (suc fuel) n a h p e =
      ap₂ ◌++◌ spec.0 (read_many_lem fuel n (read n a).1 spec.2 p fewer ∙ spec.1)
      ∙ take-drop n (content a)
    where
      spec :
          ((read n a).0 ≡ take n (content a))
          × (content (read n a).1 ≡ drop n (content a))
          × IsValid (read n a).1
      spec = read_lem n a h

      fewer : length (content (read n a).1) ≤ fuel
      fewer = omega (arith, ap length spec.1, length-drop n (content a))
