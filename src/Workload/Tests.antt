-- ===== src/Workload/Tests.antt =====
-- The health checks of src/workload.py at a concrete input.
use Prim.Native.String.{count, char_at}
use Prim.Native.Char.{Char}
use zookeeper_k8s_operator.Workload.Passwords.{
  generate_password, occurs, all_letters_or_digits, generate_password_lem,
}
use zookeeper_k8s_operator.Base.{
  ℕ, ◌<◌, ◌≡◌, ◌⊎◌, leb, refl, true, false, arith, not, ◌&&◌, ◌==◌, none, some,
}
use zookeeper_k8s_operator.Base.{
  [], ◌∷◌, List, Outcome, ok, raised, change_error, other_error, String,
}
use zookeeper_k8s_operator.Workload.Container.{
  Layer, Request, make_dir, add_layer, replan, execute, start, exec, text,
}
use zookeeper_k8s_operator.Workload.Admin.{
  Probe, ruok_body, ruok_failed, srvr_body, healthy_once, healthy, get_version,
}
use zookeeper_k8s_operator.Workload.Admin.Checks.{IsDecided, healthy-cases}

-- the service answers without an error
abbrev up : Probe
up = record { container_can_connect = true; is_running = ok true; ruok = ruok_body none }

-- it runs from the third attempt on
abbrev starting : ℕ → Probe
starting n = record up { is_running = ok (not (n == 0) && not (n == 1)) }

abbrev never : ℕ → Probe
never n = record up { ruok = ruok_failed }

-- Pebble has no such service
abbrev gone : Probe
gone = record up { is_running = raised other_error }

versions :
    (get_version up starting (srvr_body (some "3.8.4-1a2b3c")) ≡ ok "3.8.4")
    × (get_version up never (srvr_body (some "3.8.4-1a2b3c")) ≡ ok "")
    × (healthy (λ n. gone) ≡ raised other_error)
unfolding get_version healthy
versions = (refl, refl, refl)

healthy-cases_example :
    ((k : ℕ) × (k < 5)
      × ((j : ℕ) → j < k → healthy_once (starting j) ≡ ok false)
      × IsDecided (healthy_once (starting k))
      × (healthy starting ≡ healthy_once (starting k)))
    ⊎ (((j : ℕ) → j < 5 → healthy_once (starting j) ≡ ok false) × (healthy starting ≡ ok false))
healthy-cases_example = healthy-cases starting

-- always the first character
abbrev first_of : String → ℕ → Char
first_of String.[] n = char_at "a" 0
first_of (String.◌∷◌ c s) n = c

first_of-drawn : (s : String) (n : ℕ) → leb 1 (count s) ≡ true → occurs (first_of s n) s ≡ true
unfolding occurs
first_of-drawn String.[] n h = absurd (ground (arith, h))
first_of-drawn (String.◌∷◌ c s) n h = ground arith

generate_password_lem_example :
    (count (generate_password first_of) ≡ 32)
    × (all_letters_or_digits (generate_password first_of) ≡ true)
generate_password_lem_example = generate_password_lem first_of first_of-drawn

abbrev empty_layer : Layer
empty_layer = record { summary = ""; description = ""; services = []; checks = [] }

-- the service does not come up
abbrev unready : List Request → Request → Outcome String
unready earlier replan = raised change_error
unready earlier _ = ok "done"

-- the storage is not mounted
abbrev unmounted : List Request → Request → Outcome String
unmounted earlier (make_dir path) = raised other_error
unmounted earlier _ = ok "done"

calls :
    (start (record { name = "zookeeper"; answer = unready }) empty_layer [] ≡ (
      ok "",
      make_dir "/var/lib/zookeeper/data"
          ∷ make_dir "/var/lib/zookeeper/data-log"
          ∷ add_layer "zookeeper" empty_layer
          ∷ replan
          ∷ [],
    ))
    × (start (record { name = "zookeeper"; answer = unmounted }) empty_layer []
        ≡ (raised other_error, make_dir "/var/lib/zookeeper/data" ∷ []))
    × (exec (record { name = "zookeeper"; answer = unready }) (text " rm  -rf /tmp/a ") none []
        ≡ (ok "done", execute ("rm" ∷ "-rf" ∷ "/tmp/a" ∷ []) none ∷ []))
unfolding start exec
calls = (refl, refl, refl)
