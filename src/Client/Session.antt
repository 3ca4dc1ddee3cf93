-- ===== src/Client/Session.antt =====
-- client/client.go: how a client connects, up to its session, and how long it waits in between.
--
-- `Wire` is what one attempt meets: the dial, the handshake of TLS, the certificates that the server
-- shows, the write of the request, the reply, and the set-up of `smux`. `hash` is the hexadecimal text
-- of the SHA-256 of a certificate. Times are nanoseconds.
pub mod Waits
pub mod Pinned
pub mod Life
pub mod Closed
pub mod Over
mod Tests
use caochuan.Base.{
  ℕ, ◌+◌, ◌*◌, String, Bool, not, ◌&&◌, Option, none, some, List, [], ◌∷◌, ltb, leb, if◌then◌else◌,
}
use caochuan.Base.Text.{Text, codes, text_eq}
use caochuan.Config.Client.{ClientConfig}
use caochuan.Proto.{Bytes}

-- `AuthRequest` and `AuthReply`
pub record AuthRequest : Type 0 where
  pub token : String
  pub host : String
  pub version : String

pub record AuthReply : Type 0 where
  pub ok : Bool
  pub message : String

pub record Wire : Type 0 where
  pub dials : Bool
  pub shakes : Bool
  pub certs : List Bytes
  pub sends : Bool
  pub reply : Option AuthReply
  pub muxes : Bool

-- How an attempt ends; `served` is a session, which ends when its streams do.
pub data End : Type 0 where
  unreachable no_handshake no_certificate wrong_fingerprint : End
  not_sent no_reply no_session served : End
  refused : String → End

-- `strings.ToLower` on ASCII letters, of which a fingerprint consists.
unfoldable pub to_lower : Text → Text
to_lower [] = []
to_lower (c ∷ cs) = (if leb 65 c && leb c 90 then c + 32 else c) ∷ to_lower cs

module _ (hash : Bytes → Text) where
  -- The test of the fingerprint.
  unfoldable pub pin_error : Text → List Bytes → Option End
  pin_error [] certs = none
  pin_error (c ∷ cs) [] = some no_certificate
  pin_error (c ∷ cs) (cert ∷ certs) =
      if text_eq (hash cert) (to_lower (c ∷ cs)) then none else some wrong_fingerprint

  -- `dialServer`: none where the connection stands.
  unfoldable pub dial_server : ClientConfig → Wire → Option End
  dial_server cfg w =
      if not w.dials
      then some unreachable
      else if cfg.no_tls
      then none
      else if not w.shakes
      then some no_handshake
      else pin_error (codes cfg.tls_fingerprint) w.certs

  unfoldable pub request_of : ClientConfig → String → String → AuthRequest
  request_of cfg host version = record { token = cfg.token; host = host; version = version }

  -- What follows the request.
  unfoldable pub after_request : Wire → End
  after_request w = elim w.reply [
    | none ↦ no_reply
    | some r ↦ if not r.ok then refused r.message else if w.muxes then served else no_session
  ]

  -- `serveOnce`: how it ends, and the request that the server got.
  unfoldable pub serve_once : ClientConfig → String → String → Wire → End × Option AuthRequest
  serve_once cfg host version w = elim (dial_server cfg w) [
    | some e ↦ (e, none)
    | none ↦
        if not w.sends
        then (not_sent, none)
        else (after_request w, some (request_of cfg host version))
  ]

-- `backoffStart` and `backoffMax`
abbrev pub backoff_start : ℕ
backoff_start = 1_000_000_000

abbrev pub backoff_max : ℕ
backoff_max = 30_000_000_000

-- The backoff that is waited after an attempt of some length.
unfoldable pub waited : ℕ → ℕ → ℕ
waited elapsed backoff = if ltb backoff_max elapsed then backoff_start else backoff

-- The backoff after that wait.
unfoldable pub doubled : ℕ → ℕ
doubled backoff = if ltb backoff_max (backoff * 2) then backoff_max else backoff * 2

-- The loop of `Run`, over the lengths of the attempts: the waits after them. The last attempt is the one
-- during which the context is cancelled.
unfoldable pub run_loop : List ℕ → ℕ → List ℕ
run_loop [] backoff = []
run_loop (elapsed ∷ more) backoff = let w = waited elapsed backoff in w ∷ run_loop more (doubled w)

-- `Run`
abbrev pub run : List ℕ → List ℕ
run attempts = run_loop attempts backoff_start
