-- ===== src/Server/Health/Shown.antt =====
-- server/health.go and server/state.go: what the panel shows of targets.
use caochuan.Base.{String, Bool, ◌&&◌, Option, none, some, str_eq}
use caochuan.Base.Dict.{Dict}
use caochuan.Config.{Rule}
use caochuan.Server.State.{Server}

abbrev or_else :
    (Rule → Option String) → Option (Option String) → Option Rule → Option (Option String)
or_else result old none = old
or_else result old (some r) = some (result r)

abbrev is_probed : Rule → Bool
is_probed r = r.enabled && str_eq r.proto "tcp"

-- What a probe's answer is shown as.
abbrev pub shown : Option String → String × String
shown none = ("ok", "")
shown (some e) = ("fail", e)
