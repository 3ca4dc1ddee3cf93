-- ===== src/Relay/Proxy.antt =====
-- relay/proxyproto.go: `ProxyHeader`.
--
-- An address is its bytes. `Printer` is `fmt`: the text of an address (`net.IP.String`) and of a number.
use caochuan.Base.{
  ℕ, ◌≡◌, Bool, true, false, ◌&&◌, ◌||◌, Option, none, some, [], ◌∷◌, ◌++◌, arith, ◌==◌,
  if◌then◌else◌, length, take, drop, length-append,
}
use caochuan.Base.Int.{ℤ, pos, eqb_ℤ}
use caochuan.Proto.{Bytes, put_uint16, uint16}

pub record TcpAddr : Type 0 where
  pub ip : Bytes
  pub port : ℕ

-- `sig`
abbrev pub signature : Bytes
signature = 13 ∷ 10 ∷ 13 ∷ 10 ∷ 0 ∷ 13 ∷ 10 ∷ b'Q' ∷ b'U' ∷ b'I' ∷ b'T' ∷ b'\n' ∷ []

abbrev mapped_prefix : Bytes
mapped_prefix = 0 ∷ 0 ∷ 0 ∷ 0 ∷ 0 ∷ 0 ∷ 0 ∷ 0 ∷ 0 ∷ 0 ∷ 255 ∷ 255 ∷ []

unfoldable pub bytes_eq : Bytes → Bytes → Bool
bytes_eq [] [] = true
bytes_eq [] (y ∷ ys) = false
bytes_eq (x ∷ xs) [] = false
bytes_eq (x ∷ xs) (y ∷ ys) = x == y && bytes_eq xs ys

-- `IP.To4`
unfoldable pub to4 : Bytes → Option Bytes
to4 ip =
    if length ip == 4
    then some ip
    else if length ip == 16 && bytes_eq (take 12 ip) mapped_prefix
    then some (drop 12 ip)
    else none

-- `IP.To16`
unfoldable pub to16 : Bytes → Bytes
to16 ip = if length ip == 4 then mapped_prefix ++ ip else if length ip == 16 then ip else []

-- The family, the declared length and the addresses.
unfoldable pub address_block : Option Bytes → Option Bytes → Bytes → Bytes → Bytes
address_block (some src4) (some dst4) src dst = 0x21 ∷ 0x11 ∷ (put_uint16 16 ++ (src4 ++ dst4))
address_block none dst4 src dst = 0x21 ∷ 0x22 ∷ (put_uint16 36 ++ (to16 src ++ to16 dst))
address_block (some src4) none src dst = 0x21 ∷ 0x22 ∷ (put_uint16 36 ++ (to16 src ++ to16 dst))

-- `ProxyHeader(2, src, dst)`; the ports are cut to 16 bits. No header where an address is missing.
unfoldable pub proxy_header_v2 : TcpAddr → TcpAddr → Option Bytes
proxy_header_v2 src dst =
    if length src.ip == 0 || length dst.ip == 0
    then none
    else some (
        signature
        ++ (address_block (to4 src.ip) (to4 dst.ip) src.ip dst.ip
            ++ (put_uint16 src.port ++ put_uint16 dst.port)))

pub record Printer : Type 0 where
  pub ip : Bytes → Bytes
  pub number : ℕ → Bytes

-- `fam`
unfoldable pub family : Option Bytes → Option Bytes → Bytes
family (some src4) (some dst4) = b'T' ∷ b'C' ∷ b'P' ∷ b'4' ∷ []
family none dst4 = b'T' ∷ b'C' ∷ b'P' ∷ b'6' ∷ []
family (some src4) none = b'T' ∷ b'C' ∷ b'P' ∷ b'6' ∷ []

abbrev space : Bytes
space = b' ' ∷ []

-- `ProxyHeader(1, src, dst)`
unfoldable pub proxy_header_v1 : Printer → TcpAddr → TcpAddr → Option Bytes
proxy_header_v1 print src dst =
    if length src.ip == 0 || length dst.ip == 0
    then none
    else some (
        (b'P' ∷ b'R' ∷ b'O' ∷ b'X' ∷ b'Y' ∷ b' ' ∷ [])
        ++ (family (to4 src.ip) (to4 dst.ip)
            ++ (space
                ++ (print.ip src.ip
                    ++ (space
                        ++ (print.ip dst.ip
                            ++ (space
                                ++ (print.number src.port
                                    ++ (space
                                        ++ (print.number dst.port ++ (13 ∷ b'\n' ∷ [])))))))))))

-- `ProxyHeader`
unfoldable pub proxy_header : Printer → ℤ → TcpAddr → TcpAddr → Option Bytes
proxy_header print version src dst =
    if eqb_ℤ version (pos 1)
    then proxy_header_v1 print src dst
    else if eqb_ℤ version (pos 2)
    then proxy_header_v2 src dst
    else none

-- What a reader of the header finds: the length that it declares, and what follows its 16 bytes.
pub declared : Bytes → ℕ
declared h = uint16 (drop 14 h)

-- There is a header for two IPv4 addresses; it declares 16 bytes, and 12 follow.
pub proxy_header_v2-short :
    (src dst : TcpAddr)
    → length src.ip ≡ 4
    → length dst.ip ≡ 4
    → (h : Bytes) × (proxy_header_v2 src dst ≡ some h)
      × (declared h ≡ 16)
      × (length (drop 16 h) ≡ 12)
unfolding proxy_header_v2 address_block to4 declared
proxy_header_v2-short src dst e f =
    let ports = put_uint16 src.port ++ put_uint16 dst.port in
    (
      signature ++ ((0x21 ∷ 0x11 ∷ (put_uint16 16 ++ (src.ip ++ dst.ip))) ++ ports),
      ground (arith, e, f),
      ground arith,
      omega (arith, length-append (src.ip ++ dst.ip) ports, length-append src.ip dst.ip),
    )
