-- ===== src/Config/Acl.antt =====
-- config/config.go: `ACL`, `NewACL` and `Allows`.
use caochuan.Base.{
  String, ◌≡◌, refl, ap, inl, inr, Bool, true, false, ◌&&◌, ◌||◌, Option, none, some, List, [], ◌∷◌,
  ◌++◌, arith, Option-cases, is_some, any,
}
use mathlib.Core.Option
use caochuan.Config.{Netip}

module _ (n : Netip) where
  open n use {Addr, Prefix, parse_prefix, parse_addr, prefix_contains, unmap, Addr-discrete}

  pub record Acl : Type 0 where
    pub prefixes : List Prefix
    pub addrs : List Addr

  pub addr_eq : Addr → Addr → Bool
  addr_eq a b = elim (Addr-discrete a b) [ yes _ ↦ true | no _ ↦ false ]

  -- The loop of `NewACL`.
  unfoldable pub add_entries : List String → Acl → Option Acl
  add_entries [] a = some a
  add_entries (e ∷ es) a = elim (parse_prefix e) [
    | some p ↦ add_entries es (record a { prefixes = a.prefixes ++ (p ∷ []) })
    | none ↦ elim (parse_addr e) [
      | none ↦ none
      | some x ↦ add_entries es (record a { addrs = a.addrs ++ (unmap x ∷ []) })
    ]
  ]

  -- `NewACL`: `none` is the error, `some none` the nil list that restricts nothing.
  unfoldable pub new_acl : List String → Option (Option Acl)
  unfolding add_entries
  new_acl [] = some none
  new_acl (e ∷ es) =
      Option.map (λ a. some a) (add_entries (e ∷ es) (record { prefixes = []; addrs = [] }))

  listed : Acl → Addr → Bool
  listed a ip = any (λ p. prefix_contains p ip) a.prefixes || any (λ x. addr_eq x ip) a.addrs

  -- `(*ACL).Allows`
  unfoldable pub allows : Option Acl → Addr → Bool
  unfolding listed
  allows none ip = true
  allows (some a) ip = listed a (unmap ip)

  -- What one entry says of an address, read without compiling the list.
  pub entry_matches : Addr → String → Bool
  entry_matches ip e = elim (parse_prefix e) [
    | some p ↦ prefix_contains p (unmap ip)
    | none ↦ elim (parse_addr e) [ none ↦ false | some x ↦ addr_eq (unmap x) (unmap ip) ]
  ]

  unfoldable pub is_entry : String → Bool
  is_entry e = elim (parse_prefix e) [
    | some p ↦ true
    | none ↦ elim (parse_addr e) [ none ↦ false | some x ↦ true ]
  ]

  any-snoc {ℓ} :
      {A : Type ℓ} (p : A → Bool) (xs : List A) (x : A) → any p (xs ++ (x ∷ [])) ≡ (any p xs || p x)
  any-snoc p [] x = ground arith
  any-snoc p (y ∷ xs) x = ground (arith, any-snoc p xs x)

  -- Compiling more entries into a list adds what they match.
  listed-add_entries :
      (ip : Addr) (es : List String) (a b : Acl)
      → add_entries es a ≡ some b
      → listed b (unmap ip) ≡ (listed a (unmap ip) || any (entry_matches ip) es)
  unfolding add_entries listed entry_matches
  listed-add_entries ip [] a b h = ground arith
  listed-add_entries ip (e ∷ es) a b h = elim (Option-cases (parse_prefix e)) [
    | inl np ↦ elim (Option-cases (parse_addr e)) [
      | inl na ↦ ground arith
      | inr (x, ea) ↦ ground (
        arith,
        any-snoc (λ y. addr_eq y (unmap ip)) a.addrs (unmap x),
        listed-add_entries ip es (record a { addrs = a.addrs ++ (unmap x ∷ []) }) b,
      )
    ]
    | inr (p, ep) ↦ ground (
      arith,
      any-snoc (λ q. prefix_contains q (unmap ip)) a.prefixes p,
      listed-add_entries ip es (record a { prefixes = a.prefixes ++ (p ∷ []) }) b,
    )
  ]

  -- A non-empty list that compiles allows exactly the addresses that one of its entries matches.
  pub allows-new_acl :
      (ip : Addr) (e : String) (es : List String) (a : Option Acl)
      → new_acl (e ∷ es) ≡ some a
      → allows a ip ≡ any (entry_matches ip) (e ∷ es)
  unfolding new_acl allows
  allows-new_acl ip e es a h =
      elim (Option-cases (add_entries (e ∷ es) (record { prefixes = []; addrs = [] }))) [
        | inl no_list ↦ ground arith
        | inr (b, eb) ↦
            ground
              (arith, listed-add_entries ip (e ∷ es) (record { prefixes = []; addrs = [] }) b eb)
      ]

  unfoldable pub all_entries : List String → Bool
  all_entries [] = true
  all_entries (e ∷ es) = is_entry e && all_entries es

  is_some-add_entries : (es : List String) (a : Acl) → is_some (add_entries es a) ≡ all_entries es
  unfolding add_entries all_entries is_entry
  is_some-add_entries [] a = refl
  is_some-add_entries (e ∷ es) a = elim (Option-cases (parse_prefix e)) [
    | inl np ↦ elim (Option-cases (parse_addr e)) [
      | inl na ↦ ground arith
      | inr (x, ea) ↦
          ground (arith, is_some-add_entries es (record a { addrs = a.addrs ++ (unmap x ∷ []) }))
    ]
    | inr (p, ep) ↦
        ground (arith, is_some-add_entries es (record a { prefixes = a.prefixes ++ (p ∷ []) }))
  ]

  -- `NewACL` succeeds exactly when every entry is a prefix or an address.
  pub is_some-new_acl : (es : List String) → is_some (new_acl es) ≡ all_entries es
  unfolding new_acl all_entries
  is_some-new_acl [] = refl
  is_some-new_acl (e ∷ es) =
      ground (arith, is_some-add_entries (e ∷ es) (record { prefixes = []; addrs = [] }))

  -- Only the empty list compiles to no restriction.
  pub new_acl-restricts : (e : String) (es : List String) → ¬ (new_acl (e ∷ es) ≡ some none)
  unfolding new_acl
  new_acl-restricts e es h =
      elim (Option-cases (add_entries (e ∷ es) (record { prefixes = []; addrs = [] }))) [
        | inl absent ↦ ground arith
        | inr (b, eb) ↦ ground arith
      ]

  pub allows-unmap :
      ((a : Addr) → unmap (unmap a) ≡ unmap a)
      → (acl : Option Acl) (ip : Addr) → allows acl (unmap ip) ≡ allows acl ip
  unfolding allows
  allows-unmap stable none ip = refl
  allows-unmap stable (some a) ip = ap (listed a) (stable ip)
