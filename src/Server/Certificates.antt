-- ===== src/Server/Certificates.antt =====
-- server/certificate.rs: how a server comes by its certificate. The file system, `rcgen`, the PEM
-- format and the digest are parameters. `none` is a panic, of `assert!` or of `expect`.
pub mod Again
use bevy_quinnet.Base.{
  ℕ, ◌≡◌, ◌≢◌, List, [], ◌∷◌, Option, none, some, Result, ok, err, Bool, true, ◌&&◌, if◌then◌else◌,
}
use bevy_quinnet.Certificate.{CertificateFingerprint}

pub record Files (W : Type 0) : Type 1 where
  pub FilePath : Type 0
  pub Content : Type 0
  pub IoError : Type 0
  pub parent : FilePath → Option FilePath
  pub exists : FilePath → W → Bool
  pub create_dir_all : FilePath → W → Result (Unit {0}) IoError × W
  pub write : FilePath → Content → W → Result (Unit {0}) IoError × W
  -- `File::open`, and all that a reader of the file yields
  pub read : FilePath → W → Result Content IoError
  pub CertificateDer : Type 0
  pub PrivateKeyDer : Type 0
  -- `rustls_pemfile::certs` and `private_key`
  pub certs : Content → Result (List CertificateDer) IoError
  pub private_key : Content → Result (Option PrivateKeyDer) IoError
  -- `ring::digest`
  pub digest : CertificateDer → CertificateFingerprint
  -- `rcgen`
  pub CertifiedKey : Type 0
  pub GenerationError : Type 0
  pub Hostname : Type 0
  pub generate_simple_self_signed : Hostname → W → Result CertifiedKey GenerationError × W
  pub cert_der : CertifiedKey → CertificateDer
  pub key_der : CertifiedKey → PrivateKeyDer
  pub cert_pem : CertifiedKey → Content
  pub key_pem : CertifiedKey → Content

-- What the documentation of these promises: a write that succeeds is what a later read yields, and
-- concerns no other file; a PEM text holds what it was made from.
pub record FilesLaws {W : Type 0} (s : Files W) : Type 0 where
  pub write_same :
      (f : s.FilePath) (c : s.Content) (w : W)
      → (s.write f c w).0 ≡ ok tt
      → (s.read f (s.write f c w).1 ≡ ok c) × (s.exists f (s.write f c w).1 ≡ true)
  pub write_other :
      (f g : s.FilePath) (c : s.Content) (w : W)
      → f ≢ g
      → (s.read g (s.write f c w).1 ≡ s.read g w) × (s.exists g (s.write f c w).1 ≡ s.exists g w)
  pub certs-cert_pem : (k : s.CertifiedKey) → s.certs (s.cert_pem k) ≡ ok (s.cert_der k ∷ [])
  pub private_key-key_pem :
      (k : s.CertifiedKey) → s.private_key (s.key_pem k) ≡ ok (some (s.key_der k))

-- The steps of a function with `?`.
abbrev pub and_then {ℓ} :
    {W A B E : Type ℓ} → Result A E × W → (A → W → Result B E × W) → Result B E × W
and_then (ok a, w) f = f a w
and_then (err e, w) f = (err e, w)

module _ {W : Type 0} (s : Files W) where
  pub data CertificateRetrievalMode : Type 0 where
    generate_self_signed : s.Hostname → CertificateRetrievalMode
    load_from_file : s.FilePath → s.FilePath → CertificateRetrievalMode
    load_from_file_or_generate_self_signed :
        s.FilePath → s.FilePath → Bool → s.Hostname → CertificateRetrievalMode

  pub record ServerCertificate : Type 0 where
    pub cert_chain : List s.CertificateDer
    pub priv_key : s.PrivateKeyDer
    pub fingerprint : CertificateFingerprint

  pub data EndpointCertificateError : Type 0 where
    certificate_generation_failed : s.GenerationError → EndpointCertificateError
    io_error : s.IoError → EndpointCertificateError

  abbrev pub Read : Type 0
  Read = Option (Result ServerCertificate EndpointCertificateError)

  -- The end of `read_cert_from_files`, for a chain that is not empty.
  pub with_key :
      s.CertificateDer → List s.CertificateDer → Result (Option s.PrivateKeyDer) s.IoError → Read
  with_key cert rest (err e) = some (err (io_error e))
  with_key cert rest (ok none) = none
  with_key cert rest (ok (some key)) =
      some (ok (record { cert_chain = cert ∷ rest; priv_key = key; fingerprint = s.digest cert }))

  pub with_chain : Result (List s.CertificateDer) s.IoError → Result s.Content s.IoError → Read
  unfolding with_key
  with_chain (err e) key_file = some (err (io_error e))
  with_chain (ok []) key_file = none
  with_chain (ok (cert ∷ rest)) (err e) = some (err (io_error e))
  with_chain (ok (cert ∷ rest)) (ok key) = with_key cert rest (s.private_key key)

  abbrev pub certs_of : Result s.Content s.IoError → Result (List s.CertificateDer) s.IoError
  certs_of (ok content) = s.certs content
  certs_of (err e) = err e

  unfoldable pub read_cert_from_files : s.FilePath → s.FilePath → W → Read
  unfolding with_chain
  read_cert_from_files cert_file key_file w =
      with_chain (certs_of (s.read cert_file w)) (s.read key_file w)

  abbrev pub create_parent : s.FilePath → W → Result (Unit {0}) s.IoError × W
  create_parent file w = elim (s.parent file) [
    | some parent ↦ s.create_dir_all parent w
    | none ↦ (ok tt, w)
  ]

  unfoldable pub write_cert_to_files :
      s.CertifiedKey → s.FilePath → s.FilePath → W → Result (Unit {0}) s.IoError × W
  write_cert_to_files cert cert_file key_file w = and_then (create_parent cert_file w) (λ _ w1.
      and_then (create_parent key_file w1) (λ _ w2.
        and_then (s.write cert_file (s.cert_pem cert) w2)
          (λ _ w3. s.write key_file (s.key_pem cert) w3)))

  abbrev pub self_signed : s.CertifiedKey → ServerCertificate
  self_signed generated = record {
    cert_chain = s.cert_der generated ∷ [];
    priv_key = s.key_der generated;
    fingerprint = s.digest (s.cert_der generated);
  }

  abbrev pub made_of :
      Result s.CertifiedKey s.GenerationError
      → Result (ServerCertificate × s.CertifiedKey) EndpointCertificateError
  made_of (ok key) = ok (self_signed key, key)
  made_of (err e) = err (certificate_generation_failed e)

  unfoldable pub generate_self_signed_certificate :
      s.Hostname → W → Result (ServerCertificate × s.CertifiedKey) EndpointCertificateError × W
  generate_self_signed_certificate server_host w =
      let (generated, w') = s.generate_simple_self_signed server_host w in (made_of generated, w')

  abbrev pub Retrieved : Type 0
  Retrieved = Option (Result ServerCertificate EndpointCertificateError × W)

  abbrev pub read_only : Read → W → Retrieved
  read_only none w = none
  read_only (some r) w = some (r, w)

  abbrev pub saved_of :
      ServerCertificate
      → Result (Unit {0}) s.IoError
      → Result ServerCertificate EndpointCertificateError
  saved_of server_cert (ok u) = ok server_cert
  saved_of server_cert (err e) = err (io_error e)

  -- `if save_on_disk`
  pub save :
      ServerCertificate × s.CertifiedKey
      → s.FilePath
      → s.FilePath
      → Bool
      → W
      → Result ServerCertificate EndpointCertificateError × W
  save (server_cert, key) cert_file key_file save_on_disk w =
      let (written, w') = write_cert_to_files key cert_file key_file w in
      if save_on_disk then (saved_of server_cert written, w') else (ok server_cert, w)

  unfoldable pub generate_and_save :
      s.FilePath
      → s.FilePath
      → Bool
      → s.Hostname
      → W
      → Result ServerCertificate EndpointCertificateError × W
  unfolding generate_self_signed_certificate save
  generate_and_save cert_file key_file save_on_disk server_hostname w =
      and_then (generate_self_signed_certificate server_hostname w)
        (λ made. save made cert_file key_file save_on_disk)

  unfoldable pub retrieve_certificate : CertificateRetrievalMode → W → Retrieved
  unfolding read_cert_from_files generate_and_save
  retrieve_certificate (generate_self_signed server_hostname) w =
      some
        (and_then (generate_self_signed_certificate server_hostname w) (λ made w'. (ok made.0, w')))
  retrieve_certificate (load_from_file cert_file key_file) w =
      read_only (read_cert_from_files cert_file key_file w) w
  retrieve_certificate
        (load_from_file_or_generate_self_signed cert_file key_file save_on_disk server_hostname) w =
      if s.exists cert_file w && s.exists key_file w
      then read_only (read_cert_from_files cert_file key_file w) w
      else some (generate_and_save cert_file key_file save_on_disk server_hostname w)
