-- ===== src/Server/Certificate.antt =====
-- server/tls.go: the certificate of the tunnel, `LoadOrGenerate` and `newManager`.
--
-- Files are a dictionary from paths to contents. `Crypto` is the library: the pair of a certificate and a
-- key in their files' form, a new certificate with its key, their form in files, and the hexadecimal text
-- of a SHA-256. A write that fails leaves what `Crypto` says of it.
pub mod Stable
use caochuan.Base.{String, Bool, true, false, not, ◌||◌, Option, none, some, if◌then◌else◌, str_eq}
use caochuan.Base.Dict.{Dict, lookup, insert}
use caochuan.Base.Text.{Text}
use caochuan.Proto.{Bytes}

pub record Crypto : Type 0 where
  -- `tls.X509KeyPair`: the certificate in binary form.
  pub pair : Bytes → Bytes → Option Bytes
  -- `ecdsa.GenerateKey`, `x509.CreateCertificate`, `x509.MarshalECPrivateKey`: certificate and key.
  pub generate : Option (Bytes × Bytes)
  pub pem_cert : Bytes → Bytes
  pub pem_key : Bytes → Bytes
  pub hash : Bytes → Text
  -- Whether a file can be written, and what it holds if not.
  pub write_error : String → Option Bytes

-- `CertManager`, with the certificate of its `tls.Config`.
pub record CertManager : Type 0 where
  pub certificate : Bytes
  pub fingerprint : Text

abbrev pub Files : Type 0
Files = Dict Bytes

module _ (c : Crypto) where
  -- `newManager`
  unfoldable pub new_manager : Bytes → CertManager
  new_manager cert = record { certificate = cert; fingerprint = Crypto.hash c cert }

  -- `os.WriteFile`
  unfoldable pub write_file : String → Bytes → Files → Bool × Files
  write_file path b fs = elim (Crypto.write_error c path) [
    | none ↦ (true, insert path b fs)
    | some broken ↦ (false, insert path broken fs)
  ]

  -- The manager of a pair of files' contents.
  unfoldable pub manager_of : Bytes → Bytes → Option CertManager
  manager_of cert key = elim (Crypto.pair c cert key) [
    | none ↦ none
    | some der ↦ some (new_manager der)
  ]

  -- The writes of a new pair, the key first.
  unfoldable pub store_cert : String → Bytes → Bytes → Files → Option CertManager × Files
  store_cert cert_file der key fs =
      let (ok, fs') = write_file cert_file (Crypto.pem_cert c der) fs in
      if not ok
      then (none, fs')
      else (manager_of (Crypto.pem_cert c der) (Crypto.pem_key c key), fs')

  unfoldable pub store : String → String → Bytes × Bytes → Files → Option CertManager × Files
  store cert_file key_file (der, key) fs =
      let (ok, fs') = write_file key_file (Crypto.pem_key c key) fs in
      if not ok then (none, fs') else store_cert cert_file der key fs'

  -- The new certificate.
  unfoldable pub generate_pair : String → String → Files → Option CertManager × Files
  generate_pair cert_file key_file fs = elim (Crypto.generate c) [
    | none ↦ (none, fs)
    | some p ↦ store cert_file key_file p fs
  ]

  -- `LoadOrGenerate` with the names chosen.
  unfoldable pub load_files : String → String → Files → Option CertManager × Files
  load_files cert_file key_file fs = elim (lookup cert_file fs) [
    | none ↦ generate_pair cert_file key_file fs
    | some cert ↦ elim (lookup key_file fs) [
      | none ↦ generate_pair cert_file key_file fs
      | some key ↦ (manager_of cert key, fs)
    ]
  ]

  -- `LoadOrGenerate`; `in_dir` is `filepath.Join` with the directory of the configuration. No manager
  -- stands for an error.
  unfoldable pub load_or_generate :
      (String → String) → String → String → Files → Option CertManager × Files
  load_or_generate in_dir cert_file key_file fs =
      if str_eq cert_file "" || str_eq key_file ""
      then load_files (in_dir "server.crt") (in_dir "server.key") fs
      else load_files cert_file key_file fs
