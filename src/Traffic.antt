-- ===== src/Traffic.antt =====
-- runtime/traffic.py: the `traffic` tag of a task's payload. `normalize` is Python's
-- `s.strip().lower()`; the two environment variables are fields of `Env`.
use ai_studio.Prelude.{String, Bool, Option, none, some, ◌||◌, str_eq, if◌then◌else◌}
use ai_studio.Db.{Payload}

pub record Env : Type 0 where
  pub traffic : Option String  -- AI_STUDIO_TRAFFIC
  pub test_db : Option String  -- AI_STUDIO_TEST_DB
  pub normalize : String → String

abbrev pub traffic_prod : String
traffic_prod = "prod"

abbrev pub traffic_test : String
traffic_test = "test"

abbrev or_empty : Option String → String
or_empty none = ""
or_empty (some s) = s

-- `s in {TRAFFIC_PROD, TRAFFIC_TEST}`
unfoldable pub is_traffic : String → Bool
is_traffic s = str_eq s traffic_prod || str_eq s traffic_test

abbrev is_truthy : String → Bool
is_truthy s = str_eq s "1" || str_eq s "true" || str_eq s "yes" || str_eq s "on"

unfoldable pub default_traffic : Env → String
default_traffic env =
    let explicit = env.normalize (or_empty env.traffic) in
    if is_traffic explicit
    then explicit
    else if is_truthy (env.normalize (or_empty env.test_db))
    then traffic_test
    else traffic_prod

abbrev tag_of : Env → Option String → String
tag_of env none = default_traffic env
tag_of env (some raw) =
    if is_traffic (env.normalize raw) then env.normalize raw else default_traffic env

unfoldable pub tag_payload : Env → Payload → Payload
tag_payload env p = record p { traffic = some (tag_of env p.traffic) }

unfoldable pub is_test_payload : Env → Payload → Bool
is_test_payload env p = str_eq (env.normalize (or_empty p.traffic)) traffic_test
