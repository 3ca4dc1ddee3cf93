-- ===== src/EndToEnd/Tests.antt =====
-- server/ and client/ together, on concrete inputs.
mod Udp
mod Socks
use caochuan.Base.{
  ◌≡◌, arith, Bool, refl, ap, true, none, some, List, [], ◌∷◌, ◌==◌, if◌then◌else◌, String-discrete,
  str_eq, differ,
}
use caochuan.Base.Int.{pos}
use caochuan.Base.Dict.{lookup}
use caochuan.Base.Text.{Text, codes, text_eq}
use caochuan.Config.{Rule}
use caochuan.Config.Fixtures.{some_rule}
use caochuan.Config.File.{no_fault, save}
use caochuan.Relay.Proxy.{TcpAddr}
use caochuan.Server.State.{World, Server, ClientConn, ReverseRule}
use caochuan.Server.Fixtures.{world_at, live, live_config}
use caochuan.Server.Apply.{apply_rules}
use caochuan.Server.Rules.{
  reverse_rule, reverse_rules, is_written, push_rules_to, broadcast_rules, set_rule_enabled,
  at_rule, find_index, commit_rules,
}
use caochuan.Server.Rules.Tidy.{IsTidy}
use caochuan.Server.Requests.{enable_a_rule, handle}
use caochuan.Server.Requests.Push.{is_about_rules}
use caochuan.Server.Streams.{open_stream_to}
use caochuan.Server.Forward.{Net, Conn, tcp_addr, other_addr, handle_tcp, handle_reverse_stream}
use caochuan.Client.Reverse.{new_manager, apply}
use caochuan.Client.Streams.{handle_stream, handle_visitor}
use caochuan.Client.Reverse.Started.{IsHanded}
use caochuan.EndToEnd.Rules.{own_rule, Agree, handle-Agree}
use caochuan.EndToEnd.Through.{through, directly}
use caochuan.EndToEnd.Routes.{dialling, routes-directly}

abbrev fine : World
fine = world_at 1000 no_fault

-- A rule that runs on the client "pc".
abbrev reverse_web : Rule
reverse_web = record some_rule { side = "client"; client = "pc" }

abbrev pc : ClientConn
pc = record {
  name = "pc";
  addr = "203.0.113.7:4000";
  version = "1";
  session = 1;
  since = 5;
  has_control = true;
  pushed = [];
  status = [];
}

abbrev online : Server
online = record live {
  cfg = record live_config { rules = reverse_web ∷ [] };
  clients = ("pc", pc) ∷ [];
}

abbrev enabled_again : Server
enabled_again = (handle fine (enable_a_rule "r1" true) online).1

abbrev told : ClientConn
told = record pc { pushed = (reverse_rule reverse_web ∷ []) ∷ [] }

succeeds : (handle fine (enable_a_rule "r1" true) online).0 ≡ none
unfolding handle set_rule_enabled at_rule find_index commit_rules String-discrete save
succeeds = refl

enabled_again-IsTidy : IsTidy enabled_again.cfg.rules
unfolding handle set_rule_enabled at_rule find_index commit_rules broadcast_rules apply_rules
    String-discrete save
enabled_again-IsTidy = record { identified = (differ "r1" "" refl, tt); separate = (tt, tt) }

pc-told : lookup "pc" enabled_again.clients ≡ some told
unfolding handle set_rule_enabled at_rule find_index commit_rules broadcast_rules push_rules_to
    is_written reverse_rules apply_rules String-discrete save
pc-told = refl

handle-Agree_example :
    (frame : List ReverseRule) × (earlier : List (List ReverseRule)) × (told.pushed
      ≡ frame ∷ earlier)
    × Agree
        (own_rule "pc" "r1" enabled_again.cfg.rules)
        (lookup "r1" (apply frame new_manager).0.rules)
    × IsHanded none (lookup "r1" (apply frame new_manager).0.rules) (apply frame new_manager).1
unfolding is_about_rules
handle-Agree_example =
    handle-Agree fine (enable_a_rule "r1" true) online enabled_again "pc" "r1" told new_manager refl
      (ap (λ e. (e, enabled_again)) succeeds) enabled_again-IsTidy pc-told refl refl (omega arith)
      tt

abbrev from : TcpAddr
from = record { ip = 203 ∷ 0 ∷ 113 ∷ 9 ∷ []; port = 5000 }

abbrev to : TcpAddr
to = record { ip = 198 ∷ 51 ∷ 100 ∷ 1 ∷ []; port = 8080 }

-- A network where every target answers; addresses are told apart by their first byte.
abbrev net : Net
net = record {
  dial = λ t. true;
  opens = λ k. true;
  takes = true;
  print = record { ip = λ b. b; number = λ k. k ∷ [] };
  text = λ a. elim a [
    | other_addr s ↦ s
    | tcp_addr t ↦ if t.port == 5000 then "203.0.113.9:5000" else "198.51.100.1:8080"
  ];
  resolve = λ s. if str_eq s "203.0.113.9:5000" then some from else some to;
}

-- What the client can dial: one target only.
abbrev far : Text → Bool
far t = text_eq t (codes "10.0.0.5:80")

-- A rule to a target behind the client "pc", with the header of version 2.
abbrev behind : Rule
behind = record some_rule { client = "pc"; proxy_proto = pos 2 }

opens-pc : open_stream_to net.opens behind.client online ≡ some 1
unfolding open_stream_to String-discrete
opens-pc = refl

back : net.resolve (net.text (tcp_addr from)) ≡ some from
unfolding String-discrete
back = refl

back' : net.resolve (net.text (tcp_addr to)) ≡ some to
unfolding String-discrete
back' = refl

abbrev connection : Conn
connection = record { remote = tcp_addr from; local = tcp_addr to }

routes-directly_example :
    (through (handle_stream (dialling far net)) (handle_tcp net online behind 1 connection 7).0 4
      ≡ handle_tcp (dialling far net) online (directly behind) 1 connection 4)
    × (through
          (handle_reverse_stream net)
          (handle_visitor (dialling far net) (some 1) (reverse_rule behind) 1 connection)
          4
        ≡ handle_tcp net online (directly behind) 1 connection 4)
unfolding String-discrete
routes-directly_example =
    routes-directly net far from to online behind 1 1 4 7 refl back back'
      (differ "r1" "__control__" refl) (differ "pc" "" refl) opens-pc refl
      (differ "203.0.113.9:5000" "" refl)
