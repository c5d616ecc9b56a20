-- ===== src/Client/Verification/Untrusted.antt =====
-- A certificate that is not the one stored for its server.
use bevy_quinnet.Base.{
  ℕ, List, [], ◌∷◌, some, ok, err, true, false, ◌==◌, ◌≡◌, ◌≢◌, ◌⊎◌, refl, ap, ◌∙◌, All, arith,
  Bool-cases, Result-cases, inl, inr,
}
use mathlib.Core.Bool.{false≢true}
use bevy_quinnet.Buffer.{Bytes}
use bevy_quinnet.Certificate.{
  CertVerificationStatus, unknown_certificate, untrusted_certificate, trusted_certificate,
  abort_connection, CertVerifierBehaviour, immediate_action, CertVerificationInfo,
  CertificateFingerprint,
}
use bevy_quinnet.Client.{ClientNet, ClientAsyncMessage}
use bevy_quinnet.Net.{TrySendError}
use bevy_quinnet.Client.Verification.{
  Outside, TofuServerVerification, VerificationError, abort_requested, abort_not_signalled,
  same_bytes, behaviour_for, known, status_of, verify_server_cert,
  apply_verifier_behaviour_for_status, apply_verifier_immediate_action,
}

same_bytes-eq : (xs ys : Bytes) → same_bytes xs ys ≡ true → xs ≡ ys
unfolding same_bytes
same_bytes-eq [] [] h = refl
same_bytes-eq [] (y ∷ ys) h = cc
same_bytes-eq (x ∷ xs) [] h = cc
same_bytes-eq (x ∷ xs) (y ∷ ys) h = elim (Bool-cases (x == y)) [
  | inl e ↦
      let first : x ≡ y = ground arith in
      ap (λ (z : ℕ). z ∷ xs) first ∙ ap (◌∷◌ y) (same_bytes-eq xs ys (rw e at h))
  | inr n ↦ absurd (false≢true (rw n at h))
]

-- Nothing but an abort is configured for untrusted certificates: that, or nothing.
abbrev pub AbortsUntrusted : List (CertVerificationStatus × CertVerifierBehaviour) → Type 0
AbortsUntrusted behaviours =
    All (λ entry. (entry.0 ≢ untrusted_certificate) ⊎ (entry.1 ≡ immediate_action abort_connection))
      behaviours

behaviour_for-untrusted :
    (behaviours : List (CertVerificationStatus × CertVerifierBehaviour))
    → AbortsUntrusted behaviours
    → behaviour_for behaviours untrusted_certificate ≡ immediate_action abort_connection
unfolding behaviour_for
behaviour_for-untrusted [] h = refl
behaviour_for-untrusted ((unknown_certificate, b) ∷ rest) h = behaviour_for-untrusted rest h.1
behaviour_for-untrusted ((trusted_certificate, b) ∷ rest) h = behaviour_for-untrusted rest h.1
behaviour_for-untrusted ((untrusted_certificate, b) ∷ rest) h = elim h.0 [
  | inl n ↦ absurd (n refl)
  | inr e ↦ e
]

module _ (V : ClientNet) (O : Outside V) where
  abbrev info :
      Bytes
      → List Bytes
      → V.types.ServerName
      → CertificateFingerprint
      → CertVerificationInfo V.types.ServerName
  info end_entity intermediates name stored = record {
    server_name = name;
    fingerprint = O.digest end_entity;
    known_fingerprint = some stored;
    certificate_chain = end_entity ∷ intermediates;
  }

  -- What the client's application is told.
  abbrev pub abort_of :
      Bytes → List Bytes → V.types.ServerName → CertificateFingerprint → ClientAsyncMessage V.types
  abort_of end_entity intermediates name stored =
      ClientAsyncMessage.certificate_connection_abort untrusted_certificate
        (info end_entity intermediates name stored)

  aborts :
      (t : TofuServerVerification V O) (end_entity : Bytes) (intermediates : List Bytes)
      (name : V.types.ServerName) (stored : CertificateFingerprint) (w : V.net.World)
      → known V O t.store name ≡ some stored
      → same_bytes stored (O.digest end_entity) ≡ false
      → AbortsUntrusted t.verifier_behaviour
      → verify_server_cert V O t end_entity intermediates name w
        ≡ some (
            apply_verifier_immediate_action V O t abort_connection untrusted_certificate
              (info end_entity intermediates name stored)
              w)
  unfolding verify_server_cert apply_verifier_behaviour_for_status status_of
  aborts t end_entity intermediates name stored w k differs only =
      let judged : verify_server_cert V O t end_entity intermediates name w
          ≡ apply_verifier_behaviour_for_status V O t untrusted_certificate
              (info end_entity intermediates name stored) w =
        rw (k, differs) refl in
      judged
      ∙ rw (apply_verifier_behaviour_for_status, behaviour_for-untrusted t.verifier_behaviour only)
          refl

  -- Let a server's name be stored with a fingerprint that differs from its certificate's, and let
  -- every behaviour that is configured for untrusted certificates be to abort, which holds when
  -- none is configured. Then the verification does not panic and refuses the certificate. It has
  -- sent the client one message, to abort, with the name, both fingerprints and the certificates,
  -- and its error tells whether that was taken.
  pub verify_server_cert-untrusted :
      (t : TofuServerVerification V O) (end_entity : Bytes) (intermediates : List Bytes)
      (name : V.types.ServerName) (stored : CertificateFingerprint) (w : V.net.World)
      → known V O t.store name ≡ some stored
      → stored ≢ O.digest end_entity
      → AbortsUntrusted t.verifier_behaviour
      → (e : VerificationError) × (verify_server_cert V O t end_entity intermediates name w
          ≡ some (
            err e,
            (V.asyncs.try_send t.to_sync_client
                (abort_of end_entity intermediates name stored)
                w).1,
          ))
        × ((((V.asyncs.try_send t.to_sync_client
                  (abort_of end_entity intermediates name stored)
                  w).0
                ≡ ok tt)
              × (e ≡ abort_requested))
            ⊎ ((x : TrySendError) × ((V.asyncs.try_send t.to_sync_client
                    (abort_of end_entity intermediates name stored)
                    w).0
                  ≡ err x)
                × (e ≡ abort_not_signalled)))
  unfolding apply_verifier_immediate_action
  verify_server_cert-untrusted t end_entity intermediates name stored w k differs only =
      elim (Bool-cases (same_bytes stored (O.digest end_entity))) [
        | inl same ↦ absurd (differs (same_bytes-eq stored (O.digest end_entity) same))
        | inr other ↦
            elim (Result-cases
              (V.asyncs.try_send t.to_sync_client (abort_of end_entity intermediates name stored)
                w).0) [
                  | inl (u, sent) ↦ (
                    abort_requested,
                    aborts t end_entity intermediates name stored w k other only ∙ rw sent refl,
                    inl (sent, refl),
                  )
                  | inr (x, sent) ↦ (
                    abort_not_signalled,
                    aborts t end_entity intermediates name stored w k other only ∙ rw sent refl,
                    inr (x, sent, refl),
                  )
                ]
      ]
