-- ===== src/Panel/Metrics.antt =====
-- panel/metrics.go: `writeMetrics`, the numbers of the server as text for a monitoring system.
--
-- `Format` is `fmt`: the text of a number (%d) and a quoted text (%q). The help lines are left out.
pub mod Labels
mod Tests
use caochuan.Base.{ℕ, List, [], ◌∷◌, ◌++◌, ◌==◌, if◌then◌else◌}
use caochuan.Base.Text.{Text, codes}
use caochuan.Config.{side_of}
use caochuan.Server.Views.{RuleView, ClientView, Overview}

pub record Format : Type 0 where
  pub number : ℕ → Text
  pub quote : Text → Text

abbrev pub backslash : ℕ
backslash = 92

abbrev pub double_quote : ℕ
double_quote = 34

abbrev pub newline : ℕ
newline = 10

-- `strings.ReplaceAll` of one character.
unfoldable pub replace_all : ℕ → Text → Text → Text
replace_all c by [] = []
replace_all c by (d ∷ s) = let rest = replace_all c by s in if d == c then by ++ rest else d ∷ rest

-- `sanitizeLabel`
unfoldable pub sanitize_label : Text → Text
sanitize_label s = replace_all newline (backslash ∷ b'n' ∷ []) (
    replace_all double_quote (backslash ∷ double_quote ∷ [])
      (replace_all backslash (backslash ∷ backslash ∷ []) s))

module _ (f : Format) where
  -- A label, after its name and the equality sign.
  unfoldable pub label : Text → Text
  label s = f.quote (sanitize_label s)

  abbrev pub number_line : Text → ℕ → Text
  number_line start n = start ++ (b' ' ∷ f.number n ++ (newline ∷ []))

  -- The labels of a rule; its id is quoted as it is.
  unfoldable pub rule_labels : RuleView → Text
  rule_labels v =
      codes "{rule="
      ++ (f.quote (codes v.rule.id)
          ++ (codes ",name="
              ++ (label (codes v.rule.name) ++ (codes ",side=" ++ label (codes (side_of v.rule))))))

  unfoldable pub byte_lines : List RuleView → Text
  byte_lines [] = []
  byte_lines (v ∷ vs) =
      let start = codes "caochuan_rule_bytes_total" ++ rule_labels v in
      number_line (start ++ codes ",direction=\"in\"}") v.stat.bytes_in
      ++ (number_line (start ++ codes ",direction=\"out\"}") v.stat.bytes_out ++ byte_lines vs)

  unfoldable pub conn_lines : List RuleView → Text
  conn_lines [] = []
  conn_lines (v ∷ vs) =
      number_line (codes "caochuan_rule_conns" ++ (rule_labels v ++ codes "}")) v.stat.conns
      ++ conn_lines vs

  unfoldable pub client_lines : List ClientView → Text
  client_lines [] = []
  client_lines (c ∷ cs) =
      number_line
        (codes "caochuan_client_online{client=" ++ (label (codes c.user.name) ++ codes "}"))
        (if c.online then 1 else 0)
      ++ client_lines cs

  -- `writeMetrics`
  unfoldable pub write_metrics : Overview → List RuleView → List ClientView → Text
  write_metrics ov vs cs =
      number_line (codes "caochuan_rules_total") ov.rules
      ++ (number_line (codes "caochuan_clients_total") ov.clients
          ++ (number_line (codes "caochuan_clients_online") ov.clients_online
              ++ (byte_lines vs ++ (conn_lines vs ++ client_lines cs))))
