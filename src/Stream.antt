-- ===== src/Stream.antt =====
-- `_StreamingToFileSyncAdapter` of src/managers/backup.py: a stream of chunks read as a file.
pub mod Reads
mod Tests
use zookeeper_k8s_operator.Base.{
  ℕ, zero, suc, ◌+◌, ◌-◌, ◌≡◌, refl, List, [], ◌∷◌, ◌++◌, ltb, leb, length, if◌then◌else◌,
}

module _ {ℓ} {A : Type ℓ} where
  abbrev pub take : ℕ → List A → List A
  take zero xs = []
  take (suc n) [] = []
  take (suc n) (x ∷ xs) = x ∷ take n xs

  abbrev pub drop : ℕ → List A → List A
  drop zero xs = xs
  drop (suc n) [] = []
  drop (suc n) (x ∷ xs) = drop n xs

-- The bytes are values of any type.
pub record Adapter {ℓ} (A : Type ℓ) : Type ℓ where
  pub streaming_source : List (List A)
  pub buffer : List A
  pub buffer_offset : ℕ

module _ {ℓ} {A : Type ℓ} where
  -- the loop that fills the buffer: the chunks that are left, and the buffer
  unfoldable pub fill : ℕ → ℕ → List (List A) → List A → List (List A) × List A
  fill num_bytes offset [] buffer = ([], buffer)
  fill num_bytes offset (chunk ∷ rest) buffer =
      let filled = fill num_bytes offset rest (buffer ++ chunk) in
      if ltb (length buffer - offset) num_bytes then filled else (chunk ∷ rest, buffer)

  -- `read(num_bytes)`: the data, and the adapter after it
  unfoldable pub read : ℕ → Adapter A → List A × Adapter A
  unfolding fill
  read num_bytes a =
      let (source, buffer) = fill num_bytes a.buffer_offset a.streaming_source a.buffer in
      if leb num_bytes (length buffer - a.buffer_offset)
      then (
        take num_bytes (drop a.buffer_offset buffer),
        record {
          streaming_source = source;
          buffer = buffer;
          buffer_offset = a.buffer_offset + num_bytes;
        },
      )
      else (
        drop a.buffer_offset buffer,
        record { streaming_source = source; buffer = []; buffer_offset = 0 },
      )

example :
    (read {A = ℕ} 3 (record {
      streaming_source = (1 ∷ 2 ∷ []) ∷ (3 ∷ 4 ∷ []) ∷ [];
      buffer = [];
      buffer_offset = 0;
    })).0
    ≡ 1 ∷ 2 ∷ 3 ∷ []
unfolding read
example = refl
