-- ===== src/Server/Start/Tests.antt =====
-- A start of a server, and its certificate at a second start.
use bevy_quinnet.Base.{
  ℕ, ◌≡◌, ◌≢◌, refl, ap, [], ◌∷◌, Option, none, some, Result, ok, err, Bool, true, false, arith,
  ◌==◌, ==_refl, if◌then◌else◌,
}
use bevy_quinnet.Config.{unreliable}
use bevy_quinnet.Net.Example.{sink_net, sink, signal}
use bevy_quinnet.Peer.{RecvChannelsConfiguration}
use bevy_quinnet.Server.{ServerNet}
use bevy_quinnet.Server.Certificates.{
  Files, FilesLaws, self_signed, generate_self_signed, load_from_file_or_generate_self_signed,
  generate_self_signed_certificate, write_cert_to_files, generate_and_save, retrieve_certificate,
}
use bevy_quinnet.Server.Certificates.Again.{retrieve_again}
use bevy_quinnet.Server.Start.{Setup, ServerEndpointConfiguration, start_endpoint}
use bevy_quinnet.Server.Start.Opened.{StartOutcome, start_endpoint_lem}

-- A server.
abbrev server_net : Bool → ServerNet
server_net closes = record {
  net = sink_net (Unit {0}) true closes;
  Handle = Unit {0};
  syncs = sink (Unit {0}) _ true;
  asyncs = sink (Unit {0}) _ true;
  handler_closes = signal (Unit {0}) _;
}

abbrev cfg : RecvChannelsConfiguration
cfg = record {
  max_buffered_payloads_count_per_channel = 2;
  max_receive_channels_count = 3;
  clear_stale_received_payloads = true;
}

-- Files of which none is there, and a set-up that never fails.
abbrev no_files : Files (Unit {0})
no_files = record {
  FilePath = ℕ;
  Content = ℕ;
  IoError = Unit {0};
  parent = λ f. none;
  exists = λ f w. false;
  create_dir_all = λ f w. (ok tt, w);
  write = λ f c w. (err tt, w);
  read = λ f w. err tt;
  CertificateDer = ℕ;
  PrivateKeyDer = ℕ;
  certs = λ c. ok (c ∷ []);
  private_key = λ c. ok (some c);
  digest = λ c. c ∷ [];
  CertifiedKey = ℕ;
  GenerationError = Unit {0};
  Hostname = ℕ;
  generate_simple_self_signed = λ h w. (ok h, w);
  cert_der = λ k. k;
  key_der = λ k. k;
  cert_pem = λ k. k;
  key_pem = λ k. k;
}

abbrev setup : Setup (server_net true) no_files
setup = record {
  ServerConfig = Unit {0};
  RustlsError = Unit {0};
  Socket = Unit {0};
  SocketAddr = Unit {0};
  with_single_cert = λ chain key. ok tt;
  set_keep_alive = λ c. some c;
  bind = λ a w. (ok tt, w);
  local_addr = λ socket. ok tt;
  spawn = λ socket c to_sync close cfg w. w;
}

abbrev start_config : ServerEndpointConfiguration (server_net true) no_files setup
start_config = record {
  local_bind_addr = tt;
  cert_mode = generate_self_signed 5;
  send_channels_cfg = record { channels = unreliable ∷ unreliable ∷ [] };
  recv_channels_cfg = cfg;
}

start_endpoint_lem_example :
    StartOutcome
      (server_net true)
      no_files
      setup
      (record { endpoint = none })
      start_config
      (omega arith)
      (ok (self_signed no_files 5))
      (start_endpoint (server_net true) no_files setup (record { endpoint = none }) start_config tt)
unfolding retrieve_certificate generate_self_signed_certificate
start_endpoint_lem_example =
    start_endpoint_lem (server_net true) no_files setup (record { endpoint = none }) start_config
      (omega arith) (ok (self_signed no_files 5)) tt tt refl

-- One file system of numbered files, each with a number in it.
abbrev Disk : Type 0
Disk = ℕ → Option ℕ

abbrev content : Option ℕ → Result ℕ (Unit {0})
content none = err tt
content (some c) = ok c

abbrev is_there : Option ℕ → Bool
is_there none = false
is_there (some c) = true

abbrev disk : Files Disk
disk = record {
  FilePath = ℕ;
  Content = ℕ;
  IoError = Unit {0};
  parent = λ f. none;
  exists = λ f w. is_there (w f);
  create_dir_all = λ f w. (ok tt, w);
  write = λ f c w. (ok tt, λ g. if f == g then some c else w g);
  read = λ f w. content (w f);
  CertificateDer = ℕ;
  PrivateKeyDer = ℕ;
  certs = λ c. ok (c ∷ []);
  private_key = λ c. ok (some c);
  digest = λ c. c ∷ [];
  CertifiedKey = ℕ;
  GenerationError = Unit {0};
  Hostname = ℕ;
  generate_simple_self_signed = λ h w. (ok h, w);
  cert_der = λ k. k;
  key_der = λ k. k;
  cert_pem = λ k. k;
  key_pem = λ k. k;
}

disk_same :
    (f c : ℕ) (w : Disk)
    → (content (if f == f then some c else w f) ≡ ok c)
      × (is_there (if f == f then some c else w f) ≡ true)
disk_same f c w = rw (==_refl f) (refl, refl)

disk_other : (f g c : ℕ) (w : Disk) → f ≢ g → (if f == g then some c else w g) ≡ w g
disk_other f g c w ne = ground arith

disk_laws : FilesLaws disk
disk_laws = record {
  write_same = λ f c w e. disk_same f c w;
  write_other =
      λ f g c w ne. (ap content (disk_other f g c w ne), ap is_there (disk_other f g c w ne));
  certs-cert_pem = λ k. refl;
  private_key-key_pem = λ k. refl;
}

abbrev saved : Disk
saved g = if 2 == g then some 7 else (if 1 == g then some 7 else none)

retrieve_again_example :
    retrieve_certificate disk (load_from_file_or_generate_self_signed 1 2 true 7) saved
    ≡ some (ok (self_signed disk 7), saved)
unfolding retrieve_certificate generate_and_save generate_self_signed_certificate
    write_cert_to_files
retrieve_again_example =
    retrieve_again disk disk_laws 1 2 7 (λ g. none) saved (self_signed disk 7)
      (λ e. absurd (omega arith)) refl
