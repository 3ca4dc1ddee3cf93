-- ===== src/Panel/Metrics/Tests.antt =====
-- panel/metrics.go: the metrics of concrete rules and clients.
use caochuan.Base.{
  ◌+◌, ◌≡◌, refl, ◌↔◌, true, false, Option, none, some, [], ◌∷◌, any, String-discrete,
}
use caochuan.Base.Text.{Text, codes}
use caochuan.Config.Fixtures.{some_rule}
use caochuan.Server.Fixtures.{some_user}
use caochuan.Server.Views.{RuleView, ClientView}
use caochuan.Panel.Metrics.{
  Format, replace_all, sanitize_label, label, rule_labels, byte_lines, conn_lines, client_lines,
  write_metrics,
}
use caochuan.Panel.Metrics.Labels.{is_special, label-plain}

-- A number is one character, and a text is quoted by a mark before it.
abbrev format : Format
format = record { number = λ n. (n + 48) ∷ []; quote = λ t. b'"' ∷ t }

abbrev unquote : Text → Option Text
unquote t = elim t [ [] ↦ none | c ∷ rest ↦ some rest ]

quoted_name :
    (unquote (label format (codes "a\"b")) ≡ some (codes "a\"b"))
    ↔ (any is_special (codes "a\"b") ≡ false)
quoted_name = label-plain format unquote (codes "a\"b") (λ t. refl)

abbrev view : RuleView
view = record {
  rule = some_rule;
  stat = record { bytes_in = 1; bytes_out = 2; conns = 3; conns_total = 4 };
  running = true;
  note = "";
  health = "";
  health_err = "";
}

abbrev client : ClientView
client = record { user = some_user; online = true; addr = "a"; since = none; version = "" }

written :
    write_metrics format
      (record { clients = 1; clients_online = 1; rules = 1 })
      (view ∷ [])
      (client ∷ [])
    ≡ codes
        "caochuan_rules_total 1\ncaochuan_clients_total 1\ncaochuan_clients_online 1\ncaochuan_rule_bytes_total{rule=\"r1,name=\"web,side=\"server,direction=\"in\"} 1\ncaochuan_rule_bytes_total{rule=\"r1,name=\"web,side=\"server,direction=\"out\"} 2\ncaochuan_rule_conns{rule=\"r1,name=\"web,side=\"server} 3\ncaochuan_client_online{client=\"pc} 1\n"
unfolding write_metrics byte_lines conn_lines client_lines rule_labels label sanitize_label
    replace_all String-discrete
written = refl
