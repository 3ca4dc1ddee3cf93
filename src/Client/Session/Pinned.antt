-- ===== src/Client/Session/Pinned.antt =====
-- client/client.go: to whom the token is sent.
use caochuan.Base.{
  String, ◌≡◌, refl, ◌≢◌, inl, inr, false, none, some, List, [], ◌∷◌, arith, Option-cases,
}
use caochuan.Base.Text.{Text, codes, text_eq_sound}
use caochuan.Config.Client.{ClientConfig}
use caochuan.Proto.{Bytes}
use caochuan.Client.Session.{
  AuthRequest, Wire, to_lower, pin_error, dial_server, request_of, serve_once,
}

module _ (hash : Bytes → Text) where
  pin_error-none :
      (want : Text) (certs : List Bytes)
      → want ≢ []
      → pin_error hash want certs ≡ none
      → (cert : Bytes) × (rest : List Bytes) × (certs ≡ cert ∷ rest) × (hash cert ≡ to_lower want)
  unfolding pin_error
  pin_error-none [] certs ne e = absurd (ne refl)
  pin_error-none (c ∷ cs) [] ne e = cc
  pin_error-none (c ∷ cs) (cert ∷ certs) ne e =
      (cert, certs, refl, text_eq_sound (hash cert) (to_lower (c ∷ cs)) (ground (arith, e)))

  serve_once-dialed :
      (cfg : ClientConfig) (host version : String) (w : Wire) (req : AuthRequest)
      → (serve_once hash cfg host version w).1 ≡ some req
      → (dial_server hash cfg w ≡ none) × (req ≡ request_of hash cfg host version)
  unfolding serve_once
  serve_once-dialed cfg host version w req e = elim (Option-cases (dial_server hash cfg w)) [
    | inl d ↦ (d, ground (arith, d, e))
    | inr (x, d) ↦ ground (arith, d, e)
  ]

  -- Where TLS is on and a fingerprint is configured, the request with the token reaches only a server
  -- whose first certificate has that fingerprint, in upper or lower case.
  pub serve_once-Pinned :
      (cfg : ClientConfig) (host version : String) (w : Wire) (req : AuthRequest)
      → cfg.no_tls ≡ false
      → codes cfg.tls_fingerprint ≢ []
      → (serve_once hash cfg host version w).1 ≡ some req
      → (cert : Bytes) × (rest : List Bytes) × (w.certs ≡ cert ∷ rest)
        × (hash cert ≡ to_lower (codes cfg.tls_fingerprint))
  unfolding dial_server
  serve_once-Pinned cfg host version w req tls ne e =
      let d = (serve_once-dialed cfg host version w req e).0 in
      pin_error-none (codes cfg.tls_fingerprint) w.certs ne (ground (arith, d, tls))
