-- ===== src/Models/Server/Name.antt =====
-- A unit's name and its number: `unit_id` of src/core/models.py.
use zookeeper_k8s_operator.Base.{◌≡◌, true, some}
use zookeeper_k8s_operator.Text.{int-str}
use zookeeper_k8s_operator.Text.Split.{free, split-append_str}
use zookeeper_k8s_operator.Models.Server.{JujuUnit, unit_name, parse_unit_id}

-- For an application whose name has no slash, the number that is parsed out of a unit's name is the
-- unit's number.
pub parse_unit_id-unit_name :
    (u : JujuUnit) → free b'/' u.app ≡ true → parse_unit_id (unit_name u) ≡ some u.number
unfolding parse_unit_id unit_name
parse_unit_id-unit_name u plain =
    rw (parse_unit_id, split-append_str u.app u.number plain) (int-str u.number)
