-- ===== src/Server/Certificate/Stable.antt =====
-- server/tls.go: the certificate from one start of the server to the next.
use caochuan.Base.{String, ◌≡◌, refl, ◌≢◌, inl, inr, none, some, arith, Option-cases}
use caochuan.Base.Dict.{lookup, insert, lookup-insert}
use caochuan.Proto.{Bytes}
use caochuan.Server.Certificate.{
  Crypto, Files, write_file, store_cert, store, generate_pair, load_files, load_or_generate,
}

module _ (c : Crypto) where
  load_files-half :
      (cert_file key_file : String) (fs : Files)
      → lookup key_file fs ≡ none
      → load_files c cert_file key_file fs ≡ generate_pair c cert_file key_file fs
  unfolding load_files
  load_files-half cert_file key_file fs e = elim (Option-cases (lookup cert_file fs)) [
    | inl a ↦ rw (load_files, a) refl
    | inr (cert, a) ↦ rw (load_files, a, e) refl
  ]

  -- Where the key file of the configuration is not there, while files can be written and a pair is made,
  -- the certificate file of the configuration is replaced by the new certificate, whatever it held.
  pub load_or_generate-overwrites :
      (in_dir : String → String) (cert_file key_file : String) (der key : Bytes) (fs : Files)
      → cert_file ≢ ""
      → key_file ≢ ""
      → lookup key_file fs ≡ none
      → Crypto.generate c ≡ some (der, key)
      → Crypto.write_error c key_file ≡ none
      → Crypto.write_error c cert_file ≡ none
      → lookup cert_file (load_or_generate c in_dir cert_file key_file fs).1
        ≡ some (Crypto.pem_cert c der)
  unfolding load_or_generate generate_pair store store_cert write_file
  load_or_generate-overwrites in_dir cert_file key_file der key fs a b e g k w =
      let with_key = insert key_file (Crypto.pem_key c key) fs in
      ground (
        arith,
        a,
        b,
        load_files-half cert_file key_file fs e,
        g,
        k,
        w,
        lookup-insert cert_file cert_file (Crypto.pem_cert c der) with_key,
      )
