-- ===== src/Client/Socks/Handshake.antt =====
-- client/socks5.go: the handshake with a program that speaks SOCKS5.
use caochuan.Base.{
  ℕ, ◌^◌, ◌<◌, ◌≡◌, refl, Bool, true, some, [], ◌∷◌, ◌++◌, arith, ◌==◌, length, any,
}
use mathlib.Core.List.{append_assoc}
use caochuan.Proto.{Bytes, put_uint16}
use caochuan.Proto.RoundTrip.{read_full-append, uint16-put_uint16}
use caochuan.Client.Socks.{
  Host, ipv4, domain, ipv6, Target, piped, read_or_drop, socks_reply, methods_of, domain_of,
  address_of, connect, request, negotiated, handle_socks,
}

-- What a program sends: the greeting with its methods, and the request for a target.
pub greeting : Bytes → Bytes
greeting methods = 5 ∷ length methods ∷ methods

pub address : Host → Bytes
address (ipv4 b) = 1 ∷ b
address (domain b) = 3 ∷ length b ∷ b
address (ipv6 b) = 4 ∷ b

pub ask : Target → Bytes
ask t = 5 ∷ 1 ∷ 0 ∷ (address t.host ++ put_uint16 t.port)

-- A host with as many bytes as its type has, and a port of 16 bits.
abbrev pub HasSize : Host → Type 0
HasSize (ipv4 b) = length b ≡ 4
HasSize (domain b) = length b < 256
HasSize (ipv6 b) = length b ≡ 16

read_or_drop-append :
    (n : ℕ) (xs ys : Bytes) → length xs ≡ n → read_or_drop n (xs ++ ys) ≡ some (xs, ys)
unfolding read_or_drop
read_or_drop-append n xs ys e = ground (arith, read_full-append n xs ys e)

-- The type of an address and its bytes.
atyp : Host → ℕ
atyp (ipv4 b) = 1
atyp (domain b) = 3
atyp (ipv6 b) = 4

body : Host → Bytes
body (ipv4 b) = b
body (domain b) = length b ∷ b
body (ipv6 b) = b

domain_of-append :
    (b rest : Bytes) → domain_of (length b ∷ [], b ++ rest) ≡ some (some (domain b, rest))
unfolding domain_of
domain_of-append b rest = rw (read_or_drop-append (length b) b rest refl, domain_of) refl

address_of-append :
    (h : Host) (rest : Bytes)
    → HasSize h
    → address_of (atyp h) (body h ++ rest) ≡ some (some (h, rest))
unfolding address_of atyp body
address_of-append (ipv4 b) rest s = rw (read_or_drop-append 4 b rest s) refl
address_of-append (domain b) rest s =
    rw (read_or_drop-append 1 (length b ∷ []) (b ++ rest) refl) (domain_of-append b rest)
address_of-append (ipv6 b) rest s = rw (read_or_drop-append 16 b rest s) refl

connect-append :
    (opens : Target → Bool) (t : Target) (rest : Bytes)
    → t.port < 2 ^ 16
    → opens t ≡ true
    → connect opens (t.host, put_uint16 t.port ++ rest) ≡ (socks_reply 0, piped t rest)
unfolding connect
connect-append opens t rest p o =
    rw (read_or_drop-append 2 (put_uint16 t.port) rest refl, connect, uint16-put_uint16 t.port p, o)
      refl

address-body : (h : Host) → address h ≡ atyp h ∷ body h
unfolding address atyp body
address-body (ipv4 b) = refl
address-body (domain b) = refl
address-body (ipv6 b) = refl

request-ask :
    (opens : Target → Bool) (t : Target) (rest : Bytes)
    → HasSize t.host
    → t.port < 2 ^ 16
    → opens t ≡ true
    → request opens (5 ∷ 1 ∷ 0 ∷ atyp t.host ∷ []) (body t.host ++ (put_uint16 t.port ++ rest))
      ≡ (socks_reply 0, piped t rest)
unfolding request
request-ask opens t rest s p o =
    rw (address_of-append t.host (put_uint16 t.port ++ rest) s) (connect-append opens t rest p o)

negotiated-ask :
    (opens : Target → Bool) (t : Target) (methods rest : Bytes)
    → any (λ m. m == 0) methods ≡ true
    → HasSize t.host
    → t.port < 2 ^ 16
    → opens t ≡ true
    → negotiated true opens (methods, ask t ++ rest) ≡ (5 ∷ 0 ∷ socks_reply 0, piped t rest)
unfolding negotiated ask
negotiated-ask opens t methods rest m s p o =
    rw
      (
        m,
        address-body t.host,
        append_assoc (body t.host) (put_uint16 t.port) rest,
        read_or_drop-append 4 (5 ∷ 1 ∷ 0 ∷ atyp t.host ∷ [])
            (body t.host ++ (put_uint16 t.port ++ rest)) refl,
        request-ask opens t rest s p o,
      )
      refl

-- A program that offers the method without login among its methods and asks for a host of any type, with
-- as many bytes as the type has, and a port of 16 bits, for which a stream opens, gets the method, the
-- reply of success, and a pipe to exactly that host and port that begins with what it sent beyond.
pub handle_socks-ask :
    (opens : Target → Bool) (t : Target) (methods rest : Bytes)
    → any (λ m. m == 0) methods ≡ true
    → HasSize t.host
    → t.port < 2 ^ 16
    → opens t ≡ true
    → handle_socks true opens (greeting methods ++ (ask t ++ rest))
      ≡ (5 ∷ 0 ∷ socks_reply 0, piped t rest)
unfolding handle_socks methods_of greeting
handle_socks-ask opens t methods rest m s p o =
    rw
      (
        read_or_drop-append 2 (5 ∷ length methods ∷ []) (methods ++ (ask t ++ rest)) refl,
        handle_socks,
      )
      (rw (read_or_drop-append (length methods) methods (ask t ++ rest) refl)
        (negotiated-ask opens t methods rest m s p o))
