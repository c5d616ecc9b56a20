-- ===== src/Certificate.antt =====
-- client/certificate.rs and shared/certificate.rs: what a client knows of a server's certificate, and
-- what it may do with it. Server names and file paths are `rustls`'s and `std`'s: parameters.
use bevy_quinnet.Base.{List, Option}
use bevy_quinnet.Buffer.{Bytes}

-- `[u8; 32]`
abbrev pub CertificateFingerprint : Type 0
CertificateFingerprint = Bytes

pub data CertVerificationStatus : Type 0 where
  unknown_certificate untrusted_certificate trusted_certificate : CertVerificationStatus

pub data CertVerifierAction : Type 0 where
  abort_connection trust_once trust_and_store : CertVerifierAction

pub data CertVerifierBehaviour : Type 0 where
  request_client_action : CertVerifierBehaviour
  immediate_action : CertVerifierAction → CertVerifierBehaviour

pub record CertVerificationInfo (ServerName : Type 0) : Type 0 where
  pub server_name : ServerName
  pub fingerprint : CertificateFingerprint
  pub known_fingerprint : Option CertificateFingerprint
  pub certificate_chain : List Bytes

-- The map's entries.
abbrev pub CertStore : Type 0 → Type 0
CertStore ServerName = List (ServerName × CertificateFingerprint)

pub data KnownHosts (ServerName FilePath : Type 0) : Type 0 where
  store : CertStore ServerName → KnownHosts ServerName FilePath
  hosts_file : FilePath → KnownHosts ServerName FilePath

pub record TrustOnFirstUseConfig (ServerName FilePath : Type 0) : Type 0 where
  pub known_hosts : KnownHosts ServerName FilePath
  pub verifier_behaviour : List (CertVerificationStatus × CertVerifierBehaviour)

pub data CertificateVerificationMode (ServerName FilePath : Type 0) : Type 0 where
  skip_verification : CertificateVerificationMode ServerName FilePath
  signed_by_certificate_authority : CertificateVerificationMode ServerName FilePath
  trust_on_first_use :
      TrustOnFirstUseConfig ServerName FilePath → CertificateVerificationMode ServerName FilePath
