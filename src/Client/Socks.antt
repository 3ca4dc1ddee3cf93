-- ===== src/Client/Socks.antt =====
-- client/socks5.go: `handleSocks`, the handshake of the SOCKS5 proxy that a client offers.
--
-- The connection is the bytes that its program sends; what is written back is collected. `writes` says
-- whether the connection takes a reply, `opens` whether `openSocks` gets a stream for the target. A
-- host is kept as its bytes: `net.IP.String` and `net.JoinHostPort` only print it.
pub mod Handshake
pub mod Served
use caochuan.Base.{ℕ, Bool, not, Option, none, some, [], ◌∷◌, ◌==◌, if◌then◌else◌, any}
use caochuan.Proto.{Bytes, ok, err, read_full, uint16}

pub data Host : Type 0 where
  ipv4 domain ipv6 : Bytes → Host

pub record Target : Type 0 where
  pub host : Host
  pub port : ℕ

-- How the handshake ends: the connection is dropped, or piped with what it has sent beyond.
pub data End : Type 0 where
  dropped : End
  piped : Target → Bytes → End

-- `io.ReadFull` where every error has one consequence.
unfoldable pub read_or_drop : ℕ → Bytes → Option (Bytes × Bytes)
read_or_drop n r = elim (read_full n r) [ ok p ↦ some p | err e ↦ none ]

-- `socksReply`
unfoldable pub socks_reply : ℕ → Bytes
socks_reply rep = 5 ∷ rep ∷ 0 ∷ 1 ∷ 0 ∷ 0 ∷ 0 ∷ 0 ∷ 0 ∷ 0 ∷ []

-- The methods of the greeting, and the rest.
unfoldable pub methods_of : Bytes → Bytes → Option (Bytes × Bytes)
methods_of (version ∷ count ∷ _) r = if version == 5 then read_or_drop count r else none
methods_of _ r = none

-- The address of a request by its type: none where it is cut off, `some none` for an unknown type.
unfoldable pub domain_of : Bytes × Bytes → Option (Option (Host × Bytes))
domain_of (count ∷ _, r) = elim (read_or_drop count r) [
  | none ↦ none
  | some p ↦ some (some (domain p.0, p.1))
]
domain_of ([], r) = none

unfoldable pub address_of : ℕ → Bytes → Option (Option (Host × Bytes))
address_of atyp r =
    if atyp == 1
    then elim (read_or_drop 4 r) [ none ↦ none | some p ↦ some (some (ipv4 p.0, p.1)) ]
    else if atyp == 3
    then elim (read_or_drop 1 r) [ none ↦ none | some p ↦ domain_of p ]
    else if atyp == 4
    then elim (read_or_drop 16 r) [ none ↦ none | some p ↦ some (some (ipv6 p.0, p.1)) ]
    else some none

-- The last part: the port, the stream and the final reply.
unfoldable pub connect : (Target → Bool) → Host × Bytes → Bytes × End
connect opens (host, r) = elim (read_or_drop 2 r) [
  | none ↦ ([], dropped)
  | some p ↦
      let target : Target = record { host = host; port = uint16 p.0 } in
      if opens target then (socks_reply 0, piped target p.1) else (socks_reply 5, dropped)
]

-- The request.
unfoldable pub request : (Target → Bool) → Bytes → Bytes → Bytes × End
request opens (version ∷ command ∷ _ ∷ atyp ∷ _) r =
    if not (version == 5)
    then ([], dropped)
    else if not (command == 1)
    then (socks_reply 7, dropped)
    else elim (address_of atyp r) [
      | none ↦ ([], dropped)
      | some known ↦ elim known [ none ↦ (socks_reply 1, dropped) | some a ↦ connect opens a ]
    ]
request opens _ r = ([], dropped)

-- What follows the greeting.
unfoldable pub negotiated : Bool → (Target → Bool) → Bytes × Bytes → Bytes × End
negotiated writes opens (methods, r) =
    if not (any (λ m. m == 0) methods)
    then (5 ∷ 255 ∷ [], dropped)
    else if not writes
    then ([], dropped)
    else elim (read_or_drop 4 r) [
      | none ↦ (5 ∷ 0 ∷ [], dropped)
      | some p ↦ let (out, end) = request opens p.0 p.1 in (5 ∷ 0 ∷ out, end)
    ]

-- `handleSocks`
unfoldable pub handle_socks : Bool → (Target → Bool) → Bytes → Bytes × End
handle_socks writes opens r = elim (read_or_drop 2 r) [
  | none ↦ ([], dropped)
  | some head ↦ elim (methods_of head.0 head.1) [
    | none ↦ ([], dropped)
    | some p ↦ negotiated writes opens p
  ]
]
