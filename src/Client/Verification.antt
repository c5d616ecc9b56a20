-- ===== src/Client/Verification.antt =====
-- TofuServerVerification of client/certificate.rs: trust on first use. A `none` is a panic.
pub mod Untrusted
use bevy_quinnet.Base.{
  List, [], ◌∷◌, Option, none, some, Result, ok, err, Bool, true, false, ◌&&◌, ◌==◌, ◌≡◌, refl, ap,
  if◌then◌else◌,
}
use bevy_quinnet.Buffer.{Bytes}
use bevy_quinnet.Certificate.{
  CertVerificationStatus, unknown_certificate, untrusted_certificate, trusted_certificate,
  CertVerifierAction, abort_connection, trust_once, trust_and_store, CertVerifierBehaviour,
  request_client_action, immediate_action, CertVerificationInfo, CertStore, CertificateFingerprint,
}
use bevy_quinnet.Client.{ClientNet, ClientAsyncMessage}

-- What other crates do: the equality of server names, the digest of a certificate, the one-shot
-- channel that a client answers on, and the file that the known hosts are written to.
pub record Outside (V : ClientNet) : Type 1 where
  pub same_name : V.types.ServerName → V.types.ServerName → Bool
  pub digest : Bytes → CertificateFingerprint
  pub ActionReceiver : Type 0
  pub oneshot : V.net.World → V.types.ActionSender × ActionReceiver × V.net.World
  pub block_on : ActionReceiver → V.net.World → Option CertVerifierAction × V.net.World
  pub store_known_hosts_to_file :
      V.types.Text
      → CertStore V.types.ServerName
      → V.net.World
      → Result (Unit {0}) (Unit {0}) × V.net.World

-- The messages of the `rustls::Error::General` that are returned.
pub data VerificationError : Type 0 where
  action_not_received abort_requested abort_not_signalled store_failed trust_not_signalled :
      VerificationError

unfoldable pub same_bytes : Bytes → Bytes → Bool
same_bytes [] [] = true
same_bytes [] (y ∷ ys) = false
same_bytes (x ∷ xs) [] = false
same_bytes (x ∷ xs) (y ∷ ys) = x == y && same_bytes xs ys

abbrev pub same_status : CertVerificationStatus → CertVerificationStatus → Bool
same_status unknown_certificate unknown_certificate = true
same_status untrusted_certificate untrusted_certificate = true
same_status trusted_certificate trusted_certificate = true
same_status _ _ = false

-- `verifier_behaviour.get(&status).unwrap_or(&DEFAULT_CERT_VERIFIER_BEHAVIOUR)`
unfoldable pub behaviour_for :
    List (CertVerificationStatus × CertVerifierBehaviour)
    → CertVerificationStatus
    → CertVerifierBehaviour
behaviour_for [] status = immediate_action abort_connection
behaviour_for ((s, behaviour) ∷ rest) status =
    if same_status s status then behaviour else behaviour_for rest status

module _ (V : ClientNet) (O : Outside V) where
  pub record TofuServerVerification : Type 0 where
    pub store : CertStore V.types.ServerName
    pub verifier_behaviour : List (CertVerificationStatus × CertVerifierBehaviour)
    pub to_sync_client : V.asyncs.Sender
    pub hosts_file : Option V.types.Text

  unfoldable pub known :
      CertStore V.types.ServerName → V.types.ServerName → Option CertificateFingerprint
  known [] name = none
  known ((n, fingerprint) ∷ rest) name =
      if O.same_name n name then some fingerprint else known rest name

  -- `store_clone.insert(..)`
  unfoldable pub remember :
      V.types.ServerName
      → CertificateFingerprint
      → CertStore V.types.ServerName
      → CertStore V.types.ServerName
  remember name fingerprint [] = (name, fingerprint) ∷ []
  remember name fingerprint ((n, f) ∷ rest) =
      if O.same_name n name
      then (n, fingerprint) ∷ rest
      else (n, f) ∷ remember name fingerprint rest

  abbrev pub Verdict : Type 0
  Verdict = Result (Unit {0}) VerificationError × V.net.World

  -- The event of a new trusted certificate.
  unfoldable pub signal_trust :
      TofuServerVerification → CertVerificationInfo V.types.ServerName → V.net.World → Verdict
  signal_trust t cert_info w =
      let (sent, w') =
        V.asyncs.try_send t.to_sync_client (ClientAsyncMessage.certificate_trust_update cert_info)
          w in
      (elim sent [ ok _ ↦ ok tt | err _ ↦ err trust_not_signalled ], w')

  unfoldable pub trust_and_signal :
      TofuServerVerification → CertVerificationInfo V.types.ServerName → V.net.World → Verdict
  trust_and_signal t cert_info w = elim t.hosts_file [
    | none ↦ signal_trust t cert_info w
    | some file ↦
        (let (stored, w') =
            O.store_known_hosts_to_file file
              (remember cert_info.server_name cert_info.fingerprint t.store) w in
          elim stored [ ok _ ↦ signal_trust t cert_info w' | err _ ↦ (err store_failed, w') ])
  ]

  unfoldable pub apply_verifier_immediate_action :
      TofuServerVerification
      → CertVerifierAction
      → CertVerificationStatus
      → CertVerificationInfo V.types.ServerName
      → V.net.World
      → Verdict
  apply_verifier_immediate_action t abort_connection status cert_info w =
      let (sent, w') =
        V.asyncs.try_send t.to_sync_client
          (ClientAsyncMessage.certificate_connection_abort status cert_info) w in
      (elim sent [ ok _ ↦ err abort_requested | err _ ↦ err abort_not_signalled ], w')
  apply_verifier_immediate_action t trust_once status cert_info w = (ok tt, w)
  apply_verifier_immediate_action t trust_and_store status cert_info w =
      trust_and_signal t cert_info w

  -- `try_send(..).unwrap()`, and the wait for the client's answer.
  unfoldable pub request_action :
      TofuServerVerification
      → CertVerificationStatus
      → CertVerificationInfo V.types.ServerName
      → V.net.World
      → Option Verdict
  request_action t status cert_info w =
      let (action_sender, cert_action_recv, w1) = O.oneshot w in
      let (sent, w2) =
        V.asyncs.try_send t.to_sync_client
          (ClientAsyncMessage.certificate_interaction_request status cert_info action_sender) w1 in
      let (answer, w3) = O.block_on cert_action_recv w2 in
      elim sent [
        | ok _ ↦ elim answer [
          | some action ↦ some (apply_verifier_immediate_action t action status cert_info w3)
          | none ↦ some (err action_not_received, w3)
        ]
        | err _ ↦ none
      ]

  unfoldable pub apply_verifier_behaviour_for_status :
      TofuServerVerification
      → CertVerificationStatus
      → CertVerificationInfo V.types.ServerName
      → V.net.World
      → Option Verdict
  apply_verifier_behaviour_for_status t status cert_info w =
      elim (behaviour_for t.verifier_behaviour status) [
        | immediate_action action ↦
            some (apply_verifier_immediate_action t action status cert_info w)
        | request_client_action ↦ request_action t status cert_info w
      ]

  unfoldable pub status_of :
      Option CertificateFingerprint → CertificateFingerprint → CertVerificationStatus
  status_of none fingerprint = unknown_certificate
  status_of (some known_fingerprint) fingerprint =
      if same_bytes known_fingerprint fingerprint
      then trusted_certificate
      else untrusted_certificate

  unfoldable pub verify_server_cert :
      TofuServerVerification
      → (end_entity : Bytes) (intermediates : List Bytes) → V.types.ServerName
      → V.net.World
      → Option Verdict
  verify_server_cert t end_entity intermediates server_name w =
      let known_fingerprint = known t.store server_name in
      let cert_info : CertVerificationInfo V.types.ServerName = record {
        server_name = server_name;
        fingerprint = O.digest end_entity;
        known_fingerprint = known_fingerprint;
        certificate_chain = end_entity ∷ intermediates;
      } in
      apply_verifier_behaviour_for_status t (status_of known_fingerprint cert_info.fingerprint)
        cert_info w
