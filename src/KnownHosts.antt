-- ===== src/KnownHosts.antt =====
-- The file of known hosts of client/certificate.rs: one line for each server, its name and the
-- fingerprint of its certificate in base64. Texts are lists of code points. The file system, the
-- names of `rustls` and `base64` are parameters.
pub mod Lines
pub mod Loading
mod Tests
use bevy_quinnet.Base.{
  ℕ, ◌≡◌, List, [], ◌∷◌, ◌++◌, Option, none, some, Result, ok, err, Bool, true, false, ◌&&◌, ◌||◌,
  ◌==◌, leb, if◌then◌else◌, length, is_empty, All, ◌<◌,
}
use bevy_quinnet.Buffer.{Bytes}
use bevy_quinnet.Certificate.{CertificateFingerprint, CertStore, KnownHosts, store, hosts_file}

abbrev pub Text : Type 0
Text = List ℕ

-- `char::is_whitespace`
pub is_whitespace : ℕ → Bool
is_whitespace c =
    (leb 9 c && leb c 13)
    || (c == 32)
    || (c == 133)
    || (c == 160)
    || (c == 5760)
    || (leb 8192 c && leb c 8202)
    || (c == 8232)
    || (c == 8233)
    || (c == 8239)
    || (c == 8287)
    || (c == 12288)

-- A line without the carriage return at its end.
pub strip_return : Text → Text
strip_return [] = []
strip_return (c ∷ []) = if c == 13 then [] else c ∷ []
strip_return (c ∷ d ∷ cs) = c ∷ strip_return (d ∷ cs)

abbrev pub last_line : Text → List Text
last_line [] = []
last_line (c ∷ cs) = (c ∷ cs) ∷ []

-- `lines()`, with the part of a line that was read.
pub split_lines : Text → Text → List Text
unfolding strip_return
split_lines line [] = last_line line
split_lines line (c ∷ cs) = elim (c == 10) [
  | true ↦ strip_return line ∷ split_lines [] cs
  | false ↦ split_lines (line ++ c ∷ []) cs
]

abbrev pub push_word : Text → List Text → List Text
push_word [] ws = ws
push_word (c ∷ cs) ws = (c ∷ cs) ∷ ws

-- `split_whitespace()`, with the part of a word that was read.
pub split_words : Text → Text → List Text
unfolding is_whitespace
split_words word [] = push_word word []
split_words word (c ∷ cs) = elim (is_whitespace c) [
  | true ↦ push_word word (split_words [] cs)
  | false ↦ split_words (word ++ c ∷ []) cs
]

pub record Hosts (W : Type 0) : Type 1 where
  pub ServerName : Type 0
  pub same_name : ServerName → ServerName → Bool
  -- `Display`, and `RustlsServerName::try_from`
  pub show_name : ServerName → Text
  pub name_of : Text → Result ServerName (Unit {0})
  pub encode : Bytes → Text
  pub decode : Text → Result Bytes (Unit {0})
  pub FilePath : Type 0
  pub parent : FilePath → Option FilePath
  pub exists : FilePath → W → Bool
  pub create_dir_all : FilePath → W → Result (Unit {0}) (Unit {0}) × W
  pub create : FilePath → W → Result (Unit {0}) (Unit {0}) × W
  -- `write!` to the end of a file that was created
  pub append : FilePath → Text → W → Result (Unit {0}) (Unit {0}) × W
  -- `File::open`, and all that a reader of the file yields. A failure anywhere in it comes before
  -- the failure of a line.
  pub read : FilePath → W → Result Text (Unit {0})

-- `Box<dyn Error>`
pub data HostsError : Type 0 where
  io_error invalid_host_file invalid_name invalid_base64 : HostsError

module _ {W : Type 0} (h : Hosts W) where
  abbrev pub Entry : Type 0
  Entry = h.ServerName × CertificateFingerprint

  -- `writeln!(store_file, "{} {}", entry.0, entry.1)`
  abbrev pub host_line : Entry → Text
  host_line (name, fingerprint) = h.show_name name ++ 32 ∷ h.encode fingerprint

  abbrev pub Wrote : Type 0
  Wrote = Result (Unit {0}) HostsError × W

  -- A step with `?`.
  abbrev pub and_then : Result (Unit {0}) (Unit {0}) × W → (W → Wrote) → Wrote
  and_then (ok u, w) f = f w
  and_then (err e, w) f = (err io_error, w)

  unfoldable pub write_entries : h.FilePath → CertStore h.ServerName → W → Wrote
  write_entries file [] w = (ok tt, w)
  write_entries file (entry ∷ rest) w =
      and_then (h.append file (host_line entry ++ 10 ∷ []) w) (write_entries file rest)

  abbrev pub create_parent : h.FilePath → W → Result (Unit {0}) (Unit {0}) × W
  create_parent file w = elim (h.parent file) [
    | some prefix ↦ h.create_dir_all prefix w
    | none ↦ (ok tt, w)
  ]

  unfoldable pub store_known_hosts_to_file : h.FilePath → CertStore h.ServerName → W → Wrote
  unfolding write_entries
  store_known_hosts_to_file file entries w =
      and_then (create_parent file w)
        (λ w1. and_then (h.create file w1) (write_entries file entries))

  -- `try_into` an array of 32 bytes.
  abbrev pub with_fingerprint : h.ServerName → Result Bytes (Unit {0}) → Result Entry HostsError
  with_fingerprint name (err e) = err invalid_base64
  with_fingerprint name (ok bytes) =
      if length bytes == 32 then ok (name, bytes) else err invalid_host_file

  abbrev pub with_name : Result h.ServerName (Unit {0}) → List Text → Result Entry HostsError
  with_name (err e) rest = err invalid_name
  with_name (ok name) [] = err invalid_host_file
  with_name (ok name) (fingerprint ∷ _) = with_fingerprint name (h.decode fingerprint)

  abbrev pub parse_words : List Text → Result Entry HostsError
  parse_words [] = err invalid_host_file
  parse_words (adr ∷ rest) = with_name (h.name_of adr) rest

  unfoldable pub parse_known_host_line : Text → Result Entry HostsError
  unfolding split_words
  parse_known_host_line line = parse_words (split_words [] line)

  -- `store.insert(..)`: a name that is there gets the new fingerprint.
  unfoldable pub insert : Entry → CertStore h.ServerName → CertStore h.ServerName
  insert (name, fingerprint) [] = (name, fingerprint) ∷ []
  insert (name, fingerprint) ((n, f) ∷ rest) =
      if h.same_name n name
      then (n, fingerprint) ∷ rest
      else (n, f) ∷ insert (name, fingerprint) rest

  -- The loop over the lines.
  unfoldable pub load_lines :
      List Text → CertStore h.ServerName → Result (CertStore h.ServerName) HostsError
  unfolding parse_known_host_line
  load_lines [] entries = ok entries
  load_lines (line ∷ rest) entries = elim (parse_known_host_line line) [
    | ok entry ↦ load_lines rest (insert entry entries)
    | err e ↦ err e
  ]

  abbrev pub Loaded : Type 0
  Loaded = Result (CertStore h.ServerName × Option h.FilePath) HostsError

  abbrev pub with_file : h.FilePath → Result (CertStore h.ServerName) HostsError → Loaded
  with_file file (ok entries) = ok (entries, some file)
  with_file file (err e) = err e

  abbrev pub load_text : Result Text (Unit {0}) → Result (CertStore h.ServerName) HostsError
  load_text (err e) = err io_error
  load_text (ok text) = load_lines (split_lines [] text) []

  unfoldable pub load_known_hosts_from_file : h.FilePath → W → Loaded
  unfolding load_lines split_lines
  load_known_hosts_from_file file w = with_file file (load_text (h.read file w))

  unfoldable pub load_known_hosts_store_from_config :
      KnownHosts h.ServerName h.FilePath → W → Loaded
  unfolding load_known_hosts_from_file
  load_known_hosts_store_from_config (store entries) w = ok (entries, none)
  load_known_hosts_store_from_config (hosts_file file) w =
      if h.exists file w then load_known_hosts_from_file file w else ok ([], some file)

-- What the documentation of these promises: what is shown or encoded is one word and is read back,
-- and a file holds what was written to it.
pub record HostsLaws {W : Type 0} (h : Hosts W) : Type 0 where
  pub name_is_word :
      (n : h.ServerName)
      → (0 < length (h.show_name n)) × All (λ c. is_whitespace c ≡ false) (h.show_name n)
  pub name_of-show_name : (n : h.ServerName) → h.name_of (h.show_name n) ≡ ok n
  pub code_is_word :
      (bytes : Bytes)
      → 0 < length bytes
      → (0 < length (h.encode bytes)) × All (λ c. is_whitespace c ≡ false) (h.encode bytes)
  pub decode-encode : (bytes : Bytes) → h.decode (h.encode bytes) ≡ ok bytes
  pub create_empty :
      (f : h.FilePath) (w : W) → (h.create f w).0 ≡ ok tt → h.read f (h.create f w).1 ≡ ok []
  pub append_read :
      (f : h.FilePath) (t line : Text) (w : W)
      → h.read f w ≡ ok t
      → (h.append f line w).0 ≡ ok tt
      → h.read f (h.append f line w).1 ≡ ok (t ++ line)
