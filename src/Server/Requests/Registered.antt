-- ===== src/Server/Requests/Registered.antt =====
-- server/state.go: the configuration stays one that can be imported, when clients come and go.
use caochuan.Base.{
  String, ◌≡◌, sym, subst, inl, inr, List, [], ◌∷◌, ◌++◌, arith, Bool-cases, str_eq, any,
}
use caochuan.Config.{ServerConfig, ClientUser}
use caochuan.Server.State.{World, Server}
use caochuan.Server.Validate.{registered}
use caochuan.Server.Clients.{add_client, delete_client, keep_clients, close_session, remove_client}
use caochuan.Server.Requests.Importable.{
  AreValid, IsValidConfig, AreValid-append, AreValid-remove_client,
}

module _ (w : World) where
  keep_clients-IsValidConfig :
      (clients : List ClientUser) (s : Server)
      → IsValidConfig w s.cfg
      → AreValid w clients s.cfg.rules
      → IsValidConfig w (keep_clients w clients s).1.cfg
  unfolding keep_clients
  keep_clients-IsValidConfig clients s v h = record {
    whitelist = v.whitelist;
    blacklist = v.blacklist;
    rules = h;
  }

  cfg-close_session : (name : String) (s : Server) → (close_session name s).cfg ≡ s.cfg
  unfolding close_session
  cfg-close_session name s = ground arith

  pub delete_client-IsValidConfig :
      (name : String) (s : Server)
      → IsValidConfig w s.cfg
      → IsValidConfig w (delete_client w name s).1.cfg
  unfolding delete_client
  delete_client-IsValidConfig name s v = elim (Bool-cases (registered name s.cfg.clients)) [
    | inr e ↦ rw (e, delete_client) v
    | inl e ↦ elim (Bool-cases (any (λ r. str_eq r.client name) s.cfg.rules)) [
      | inl f ↦ rw (e, f, delete_client) v
      | inr f ↦
          let same = sym (cfg-close_session name s) in
          rw (e, f, delete_client)
            (keep_clients-IsValidConfig (remove_client name s.cfg.clients) (close_session name s)
              (subst (IsValidConfig w) same v)
              (subst (λ c. AreValid w (remove_client name s.cfg.clients) (ServerConfig.rules c))
                same (AreValid-remove_client w name s.cfg.rules s.cfg.clients f v.rules)))
    ]
  ]

  pub add_client-IsValidConfig :
      (name note : String) (s : Server)
      → IsValidConfig w s.cfg
      → IsValidConfig w (add_client w name note s).1.cfg
  unfolding add_client
  add_client-IsValidConfig name note s v = elim (Bool-cases (str_eq name "")) [
    | inl e ↦ rw (e, add_client) v
    | inr e ↦ elim (Bool-cases (registered name s.cfg.clients)) [
      | inl f ↦ rw (e, f, add_client) v
      | inr f ↦
          let more = record { name = name; token = w.token; note = note } ∷ [] in
          rw (e, f, add_client)
            (keep_clients-IsValidConfig (s.cfg.clients ++ more) s v
              (AreValid-append w s.cfg.rules s.cfg.clients more v.rules))
    ]
  ]
