-- ===== src/EndToEnd/Tests/Socks.antt =====
-- The SOCKS5 proxy of a client on concrete inputs.
use caochuan.Base.{◌≡◌, refl, true, false, none, some, [], ◌∷◌, ◌++◌, arith, String}
use caochuan.Base.Text.{codes}
use caochuan.Relay.Targets.{trim_space, trim_left, trim_right, is_space}
use caochuan.Relay.Targets.Clean.{IsClean}
use caochuan.Server.Forward.{Net, closed, handle_reverse_stream}
use caochuan.Client.Socks.{Target, domain, socks_reply}
use caochuan.Client.Socks.Handshake.{greeting, ask}
use caochuan.Client.Socks.Served.{serve_socks}
use caochuan.EndToEnd.Through.{through}
use caochuan.EndToEnd.Socks.{serve_socks-dials}

-- A network where no target answers.
abbrev dark : Net
dark = record {
  dial = λ t. false;
  opens = λ k. true;
  takes = true;
  print = record { ip = λ b. b; number = λ k. k ∷ [] };
  text = λ a. "";
  resolve = λ s. none;
}

abbrev web : Target
web = record { host = domain (97 ∷ 46 ∷ 98 ∷ []); port = 443 }

abbrev printed : Target → String
printed t = "a.b:443"

printed-IsClean : IsClean (codes (printed web))
unfolding trim_space trim_right trim_left is_space
printed-IsClean = record { filled = λ e. cc; whole = refl; trimmed = refl }

serve_socks-dials_example :
    ((serve_socks printed dark.opens
        (some 1)
        true
        (greeting (2 ∷ 0 ∷ []) ++ (ask web ++ (1 ∷ [])))).out
      ≡ 5 ∷ 0 ∷ socks_reply 0)
    × ((serve_socks printed dark.opens
          (some 1)
          true
          (greeting (2 ∷ 0 ∷ []) ++ (ask web ++ (1 ∷ [])))).beyond
        ≡ 1 ∷ [])
    × (through
          (handle_reverse_stream dark)
          (serve_socks printed dark.opens
            (some 1)
            true
            (greeting (2 ∷ 0 ∷ []) ++ (ask web ++ (1 ∷ [])))).fate
          4
        ≡ (closed, 5))
serve_socks-dials_example =
    serve_socks-dials dark printed 1 4 web (2 ∷ 0 ∷ []) (1 ∷ []) refl (omega arith) (omega arith)
      refl printed-IsClean
