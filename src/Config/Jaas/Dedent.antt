-- ===== src/Config/Jaas/Dedent.antt =====
-- The first line of the JAAS file: `jaas_config` of src/managers/config.py.
use Prim.Native.String.{◌++◌}
use zookeeper_k8s_operator.Base.{ℕ, String, ◌≡◌, refl, ap, ◌∙◌, Option, none, some, List, ◌∷◌, map}
use zookeeper_k8s_operator.Text.{truthy, join, strip}
use zookeeper_k8s_operator.Text.Split.{split-newline}
use zookeeper_k8s_operator.Text.Lines.{split-cons}
use zookeeper_k8s_operator.State.{ClusterState}
use zookeeper_k8s_operator.Config.Jaas.{dedent, dedent_line, common_margin, jaas_config, jaas_rows}

-- a text whose first line is empty
abbrev pub blank_first : String → String
blank_first t = "" ++ ("\n" ++ t)

dedent-rows :
    (margin : Option ℕ) (line : String) (rest : List String)
    → (u : String) × ((elim margin [
      | none ↦ join "\n" (map (dedent_line 0) ("" ∷ line ∷ rest))
      | some n ↦ join "\n" (map (dedent_line n) ("" ∷ line ∷ rest))
    ])
        ≡ blank_first u)
unfolding dedent_line join strip truthy
dedent-rows none line rest = (join "\n" (map (dedent_line 0) (line ∷ rest)), refl)
dedent-rows (some n) line rest = (join "\n" (map (dedent_line n) (line ∷ rest)), refl)

dedent-blank_first : (t : String) → (u : String) × (dedent (blank_first t) ≡ blank_first u)
unfolding dedent
dedent-blank_first t =
    let (line, rest, e) = split-cons 10 t in
    let of_rows : List String → String = λ rows. elim (common_margin rows) [
      | none ↦ join "\n" (map (dedent_line 0) rows)
      | some n ↦ join "\n" (map (dedent_line n) rows)
    ] in
    let (u, shape) = dedent-rows (common_margin ("" ∷ line ∷ rest)) line rest in
    (u, ap of_rows (split-newline t ∙ ap (◌∷◌ "") e) ∙ shape)

pub jaas_config-blank_first : (s : ClusterState) → (u : String) × (jaas_config s ≡ blank_first u)
unfolding jaas_config jaas_rows join
jaas_config-blank_first s = dedent-blank_first (join "\n" (jaas_rows s))
