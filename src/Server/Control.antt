-- ===== src/Server/Control.antt =====
-- server/reverse.go: `setupControl`, the control stream of a client on the server's side.
--
-- A status from the client is one step; the push of the rules is that of Server/Rules.
use caochuan.Base.{ℕ, Bool, true, false, not, List, if◌then◌else◌}
use Prim.Native.String.{◌++◌ as append}
use caochuan.Base.Dict.{insert}
use caochuan.Config.{Rule}
use caochuan.Server.State.{World, ClientConn, ReverseStatus}
use caochuan.Server.Notify.{Notifier, send}
use caochuan.Server.Rules.{push_rules_to}

-- The deferred reset: the stream has ended.
abbrev pub control_lost : ClientConn → ClientConn
control_lost cc = record cc { has_control = false }

-- The start of `setupControl`: whether a stream opens, and takes its header.
unfoldable pub setup_control : World → Bool → Bool → List Rule → ClientConn → ClientConn
setup_control w opens writes rules cc =
    if not opens
    then cc
    else if not writes
    then control_lost cc
    else push_rules_to w rules (record cc { has_control = true })

-- One round of its loop: the status of a rule.
unfoldable pub receive_status : ℕ → ReverseStatus → ClientConn × Notifier → ClientConn × Notifier
receive_status now st (cc, n) = (
  record cc { status = insert st.id st cc.status },
  if st.ok then n else send now (append "reverse_error|" (append st.id (append "|" cc.name))) n,
)
