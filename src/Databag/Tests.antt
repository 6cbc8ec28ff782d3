-- ===== src/Databag/Tests.antt =====
-- The databag at concrete inputs.
use zookeeper_k8s_operator.Base.{◌≡◌, refl, some, [], ◌∷◌}
use zookeeper_k8s_operator.Databag.{Databag, get, update}
use zookeeper_k8s_operator.Databag.Update.{IsDict, overlay, get-update}

abbrev old : Databag
old = ("ip", "10.0.0.1") ∷ ("state", "started") ∷ []

abbrev items : Databag
items = ("state", "") ∷ ("quorum", "ssl") ∷ []

items-IsDict : IsDict items
unfolding get
items-IsDict = (refl, (refl, tt))

get-update_example : get "ip" (update items old) ≡ some "10.0.0.1"
unfolding get overlay
get-update_example = get-update "ip" items old items-IsDict
