-- ===== src/Server/Certificates/Again.antt =====
-- A server that starts again finds the certificate that it had.
use bevy_quinnet.Base.{
  ◌≡◌, ◌≢◌, refl, sym, ap, ◌∙◌, none, some, Result, ok, err, Bool, true, ◌&&◌, Bool-cases, inl, inr,
}
use mathlib.Core.Path.{subst}
use mathlib.Core.Option.{some-injective, none-ne-some}
use bevy_quinnet.Server.Certificates.{
  Files, FilesLaws, and_then, ServerCertificate, EndpointCertificateError, Read, with_key,
  with_chain, read_cert_from_files, create_parent, write_cert_to_files, self_signed, made_of,
  saved_of, generate_self_signed_certificate, read_only, save, generate_and_save,
  retrieve_certificate, load_from_file_or_generate_self_signed,
}

-- A chain of two steps that succeeds.
and_then-ok {ℓ} :
    {W A B E : Type ℓ} (m : Result A E × W) (f : A → W → Result B E × W) (b : B) (w : W)
    → and_then m f ≡ (ok b, w)
    → (a : A) × (v : W) × (m ≡ (ok a, v)) × (f a v ≡ (ok b, w))
and_then-ok (ok a, v) f b w e = (a, v, refl, e)
and_then-ok (err x, v) f b w e = cc

ok-injective {ℓ} : {A E : Type ℓ} (a b : A) → ◌≡◌ {A = Result A E} (ok a) (ok b) → a ≡ b
ok-injective {A = A} {E = E} a b e = ap from_ok e
  where
    from_ok : Result A E → A
    from_ok (ok x) = x
    from_ok (err x) = a

module _ {W : Type 0} (s : Files W) (laws : FilesLaws s) where
  -- What a world holds of a pair of files.
  pub record IsStored (key : s.CertifiedKey) (cert_file key_file : s.FilePath) (w : W)
      : Type 0 where
    pub cert_there : s.exists cert_file w ≡ true
    pub key_there : s.exists key_file w ≡ true
    pub cert_content : s.read cert_file w ≡ ok (s.cert_pem key)
    pub key_content : s.read key_file w ≡ ok (s.key_pem key)

  written_same :
      (f : s.FilePath) (c : s.Content) (w w' : W)
      → s.write f c w ≡ (ok tt, w')
      → (s.read f w' ≡ ok c) × (s.exists f w' ≡ true)
  written_same f c w w' e =
      let kept = laws.write_same f c w (ap (λ (x : Result (Unit {0}) s.IoError × W). x.0) e) in
      (
        sym (ap (λ (x : Result (Unit {0}) s.IoError × W). s.read f x.1) e) ∙ kept.0,
        sym (ap (λ (x : Result (Unit {0}) s.IoError × W). s.exists f x.1) e) ∙ kept.1,
      )

  written_other :
      (f g : s.FilePath) (c : s.Content) (w w' : W)
      → f ≢ g
      → s.write f c w ≡ (ok tt, w')
      → (s.read g w' ≡ s.read g w) × (s.exists g w' ≡ s.exists g w)
  written_other f g c w w' ne e =
      let kept = laws.write_other f g c w ne in
      (
        sym (ap (λ (x : Result (Unit {0}) s.IoError × W). s.read g x.1) e) ∙ kept.0,
        sym (ap (λ (x : Result (Unit {0}) s.IoError × W). s.exists g x.1) e) ∙ kept.1,
      )

  write_cert_to_files-IsStored :
      (key : s.CertifiedKey) (cert_file key_file : s.FilePath) (w w' : W)
      → key_file ≢ cert_file
      → write_cert_to_files s key cert_file key_file w ≡ (ok tt, w')
      → IsStored key cert_file key_file w'
  unfolding write_cert_to_files
  write_cert_to_files-IsStored key cert_file key_file w w' ne e =
      let (_, w1, p, e1) = and_then-ok (create_parent s cert_file w) _ tt w' e in
      let (_, w2, p2, e2) = and_then-ok (create_parent s key_file w1) _ tt w' e1 in
      let (_, w3, p3, e3) = and_then-ok (s.write cert_file (s.cert_pem key) w2) _ tt w' e2 in
      let cert = written_same cert_file (s.cert_pem key) w2 w3 p3 in
      let kept = written_other key_file cert_file (s.key_pem key) w3 w' ne e3 in
      let keyed = written_same key_file (s.key_pem key) w3 w' e3 in
      record {
        cert_there = kept.1 ∙ cert.1;
        key_there = keyed.1;
        cert_content = kept.0 ∙ cert.0;
        key_content = keyed.0;
      }

  read_stored :
      (key : s.CertifiedKey) (cert_file key_file : s.FilePath) (w : W)
      → IsStored key cert_file key_file w
      → read_cert_from_files s cert_file key_file w ≡ some (ok (self_signed s key))
  unfolding read_cert_from_files with_chain with_key
  read_stored key cert_file key_file w h = rw (
    h.cert_content,
    h.key_content,
    laws.certs-cert_pem key,
    laws.private_key-key_pem key,
    with_chain,
    with_key,
  )

  -- The two branches of a retrieval from files that may be missing.
  retrieve_stored :
      (key : s.CertifiedKey) (cert_file key_file : s.FilePath) (save_on_disk : Bool)
      (server_hostname : s.Hostname) (w : W)
      → IsStored key cert_file key_file w
      → retrieve_certificate s
          (load_from_file_or_generate_self_signed cert_file key_file save_on_disk server_hostname)
          w
        ≡ some (ok (self_signed s key), w)
  unfolding retrieve_certificate
  retrieve_stored key cert_file key_file save_on_disk server_hostname w h =
      rw (h.cert_there, h.key_there)
        (ap (λ (r : Read s). read_only s r w) (read_stored key cert_file key_file w h))

  made_of-ok :
      (r : Result s.CertifiedKey s.GenerationError) (made : ServerCertificate s × s.CertifiedKey)
      → made_of s r ≡ ok made
      → made.0 ≡ self_signed s made.1
  made_of-ok (ok key) made e =
      let same : (self_signed s key, key) ≡ made = ok-injective _ made e in
      subst (λ (m : ServerCertificate s × s.CertifiedKey). m.0 ≡ self_signed s m.1) same refl
  made_of-ok (err x) made e = cc

  saved_of-ok :
      (r : Result (Unit {0}) s.IoError) (made cert : ServerCertificate s)
      → saved_of s made r ≡ ok cert
      → (made ≡ cert) × (r ≡ ok tt)
  saved_of-ok (ok u) made cert e = (ok-injective made cert e, refl)
  saved_of-ok (err x) made cert e = cc

  saved :
      (made : ServerCertificate s × s.CertifiedKey) (cert_file key_file : s.FilePath) (w w' : W)
      (cert : ServerCertificate s)
      → save s made cert_file key_file true w ≡ (ok cert, w')
      → (made.0 ≡ cert) × (write_cert_to_files s made.1 cert_file key_file w ≡ (ok tt, w'))
  unfolding save
  saved made cert_file key_file w w' cert e =
      let parts =
        saved_of-ok (write_cert_to_files s made.1 cert_file key_file w).0 made.0 cert
          (ap (λ (x : Result (ServerCertificate s) (EndpointCertificateError s) × W). x.0) e) in
      (
        parts.0,
        λ i. (
          parts.1 i,
          ap (λ (x : Result (ServerCertificate s) (EndpointCertificateError s) × W). x.1) e i,
        ),
      )

  -- A certificate that was made and saved is there.
  generate_and_save-IsStored :
      (cert_file key_file : s.FilePath) (host : s.Hostname) (w w' : W) (cert : ServerCertificate s)
      → key_file ≢ cert_file
      → generate_and_save s cert_file key_file true host w ≡ (ok cert, w')
      → (key : s.CertifiedKey) × (cert ≡ self_signed s key) × IsStored key cert_file key_file w'
  unfolding generate_and_save generate_self_signed_certificate
  generate_and_save-IsStored cert_file key_file host w w' cert ne e =
      let (made, v, g, e1) = and_then-ok (generate_self_signed_certificate s host w) _ cert w' e in
      let (same, wrote) = saved made cert_file key_file v w' cert e1 in
      (
        made.1,
        sym same
            ∙ made_of-ok (s.generate_simple_self_signed host w).0 made (
                ap
                  (λ (x : Result (ServerCertificate s × s.CertifiedKey) (EndpointCertificateError s)
                      × W).
                    x.0)
                  g),
        write_cert_to_files-IsStored made.1 cert_file key_file v w' ne wrote,
      )

  -- What was only read is read again.
  read_again :
      (r : Read s) (w w' : W) (cert : ServerCertificate s)
      → read_only s r w ≡ some (ok cert, w')
      → w' ≡ w
  read_again none w w' cert e = absurd (none-ne-some _ e)
  read_again (some r) w w' cert e = sym (
      ap (λ (x : Result (ServerCertificate s) (EndpointCertificateError s) × W). x.1)
        (some-injective _ _ e))

  -- If the certificate and key files differ, a retrieval that loads them or else generates and
  -- saves, and that answers a certificate, answers the same certificate when it is done again on
  -- the files as it left them, and leaves them so.
  pub retrieve_again :
      (cert_file key_file : s.FilePath) (host : s.Hostname) (w w' : W) (cert : ServerCertificate s)
      → key_file ≢ cert_file
      → retrieve_certificate s
          (load_from_file_or_generate_self_signed cert_file key_file true host)
          w
        ≡ some (ok cert, w')
      → retrieve_certificate s
          (load_from_file_or_generate_self_signed cert_file key_file true host)
          w'
        ≡ some (ok cert, w')
  unfolding retrieve_certificate
  retrieve_again cert_file key_file host w w' cert ne e =
      elim (Bool-cases (s.exists cert_file w && s.exists key_file w)) [
        | inl there ↦ (let same = read_again _ w w' cert (rw there at e) in rw same (rw same at e))
        | inr missing ↦ after (
            generate_and_save-IsStored cert_file key_file host w w' cert ne
              (some-injective _ _ (rw missing at e)))
      ]
    where
      after :
          (key : s.CertifiedKey) × (cert ≡ self_signed s key) × IsStored key cert_file key_file w'
          → retrieve_certificate s
              (load_from_file_or_generate_self_signed cert_file key_file true host)
              w'
            ≡ some (ok cert, w')
      after (key, same, stored) =
          rw same (retrieve_stored key cert_file key_file true host w' stored)
