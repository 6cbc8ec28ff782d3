-- ===== src/Stream/Tests.antt =====
-- A concrete stream of three chunks.
use zookeeper_k8s_operator.Base.{ℕ, ◌≡◌, [], ◌∷◌, arith}
use zookeeper_k8s_operator.Stream.{Adapter, read, take, drop}
use zookeeper_k8s_operator.Stream.Reads.{content, IsValid, read_many, read_lem, read_many_lem}

abbrev source : Adapter ℕ
source = record {
  streaming_source = (1 ∷ 2 ∷ []) ∷ (3 ∷ []) ∷ (4 ∷ 5 ∷ []) ∷ [];
  buffer = [];
  buffer_offset = 0;
}

read_lem_example :
    ((read 3 source).0 ≡ take 3 (content source))
    × (content (read 3 source).1 ≡ drop 3 (content source))
    × IsValid (read 3 source).1
read_lem_example = read_lem 3 source (omega arith)

read_many_lem_example : read_many 5 2 source ≡ content source
unfolding content
read_many_lem_example = read_many_lem 5 2 source (omega arith) (omega arith) (omega arith)
