-- ===== src/Panel/Http/Paths.antt =====
-- panel/panel.go: the patterns that `apiHandler` gives to `ServeMux`.
use caochuan.Base.{String, Bool, true, false, not, ◌&&◌, List, [], ◌∷◌, if◌then◌else◌, str_eq}
use caochuan.Panel.Http.{Method, get, head, post, put, delete}

-- The patterns of `apiHandler`.
pub data Endpoint : Type 0 where
  login logout me show_overview list_the_rules create_rule list_the_clients create_client : Endpoint
  show_whitelist write_whitelist show_blacklist write_blacklist export import_body : Endpoint
  show_metrics write_password show_notify write_notify try_notify show_logs client_error : Endpoint
  show_history write_rule drop_rule toggle_rule drop_client : String → Endpoint
  other : Endpoint

-- A pattern for GET takes HEAD too.
abbrev pub is_get : Method → Bool
is_get get = true
is_get head = true
is_get _ = false

abbrev pub is_post : Method → Bool
is_post post = true
is_post _ = false

abbrev pub is_put : Method → Bool
is_put put = true
is_put _ = false

abbrev pub is_delete : Method → Bool
is_delete delete = true
is_delete _ = false

unfoldable pub route_api : Method → String → Endpoint
route_api m a =
    if str_eq a "login" && is_post m
    then login
    else if str_eq a "logout" && is_post m
    then logout
    else if str_eq a "me" && is_get m
    then me
    else if str_eq a "overview" && is_get m
    then show_overview
    else if str_eq a "rules" && is_get m
    then list_the_rules
    else if str_eq a "rules" && is_post m
    then create_rule
    else if str_eq a "clients" && is_get m
    then list_the_clients
    else if str_eq a "clients" && is_post m
    then create_client
    else if str_eq a "whitelist" && is_get m
    then show_whitelist
    else if str_eq a "whitelist" && is_put m
    then write_whitelist
    else if str_eq a "blacklist" && is_get m
    then show_blacklist
    else if str_eq a "blacklist" && is_put m
    then write_blacklist
    else if str_eq a "password" && is_put m
    then write_password
    else if str_eq a "notify" && is_get m
    then show_notify
    else if str_eq a "notify" && is_put m
    then write_notify
    else if str_eq a "logs" && is_get m
    then show_logs
    else if str_eq a "client-error" && is_post m
    then client_error
    else other

-- The patterns with one more segment; `{id}` and `{name}` do not match an empty one.
unfoldable pub route_item : Method → String → String → Endpoint
route_item m a b =
    if str_eq a "config" && str_eq b "export" && is_get m
    then export
    else if str_eq a "config" && str_eq b "import" && is_post m
    then import_body
    else if str_eq a "notify" && str_eq b "test" && is_post m
    then try_notify
    else if str_eq b ""
    then other
    else if str_eq a "history" && is_get m
    then show_history b
    else if str_eq a "rules" && is_put m
    then write_rule b
    else if str_eq a "rules" && is_delete m
    then drop_rule b
    else if str_eq a "clients" && is_delete m
    then drop_client b
    else other

unfoldable pub route : Method → List String → Endpoint
unfolding route_api route_item
route m [] = other
route m (a ∷ []) = if str_eq a "metrics" && is_get m then show_metrics else other
route m (a ∷ b ∷ []) = if str_eq a "api" then route_api m b else other
route m (a ∷ b ∷ c ∷ []) = if str_eq a "api" then route_item m b c else other
route m (a ∷ b ∷ c ∷ d ∷ []) =
    if str_eq a "api" && str_eq b "rules" && not (str_eq c "") && str_eq d "toggle" && is_post m
    then toggle_rule c
    else other
route m (a ∷ b ∷ c ∷ d ∷ e ∷ rest) = other
