-- ===== src/Json/Laws.antt =====
-- Reading a property after it is set.
use job_flow_web_application.Prelude.{some, ◌≡◌, refl, arith, if◌then◌else◌}
use job_flow_web_application.Prelude.Text.{Text, ◌==◌, eq_iff}
use job_flow_web_application.Json.{Json, Fields, end, field, get, put}

pub get-put :
    (j k : Text) (v : Json) (fields : Fields)
    → get j (put k v fields) ≡ (if k == j then some v else get j fields)
unfolding get put
get-put j k v end = refl
get-put j k v (field i w fields) =
    ground (arith, eq_iff k j, eq_iff i k, eq_iff i j, get-put j k v fields)
