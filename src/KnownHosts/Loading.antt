-- ===== src/KnownHosts/Loading.antt =====
-- The file of known hosts, written and loaded again.
use bevy_quinnet.Base.{
  ◌≡◌, refl, sym, ap, ◌∙◌, List, [], ◌∷◌, ◌++◌, some, Result, ok, err, false, length, All,
  All-append, map, arith,
}
use mathlib.Core.List.{append_assoc, append-nil}
use bevy_quinnet.Certificate.{CertStore}
use bevy_quinnet.KnownHosts.{
  Text, Hosts, HostsLaws, Entry, host_line, Wrote, and_then, write_entries, create_parent,
  store_known_hosts_to_file, parse_known_host_line, parse_words, insert, load_lines, load_text,
  with_file, load_known_hosts_from_file, split_lines,
}
use bevy_quinnet.KnownHosts.Lines.{words-IsLine, split_lines_first, split_words_two}

module _ {W : Type 0} (h : Hosts W) (laws : HostsLaws h) where
  and_then-ok :
      (m : Result (Unit {0}) (Unit {0}) × W) (f : W → Wrote h) (w : W)
      → and_then h m f ≡ (ok tt, w)
      → (v : W) × (m ≡ (ok tt, v)) × (f v ≡ (ok tt, w))
  and_then-ok (ok u, v) f w e = (v, refl, e)
  and_then-ok (err x, v) f w e = cc

  -- What is in a file that was written.
  abbrev text_of : CertStore h.ServerName → Text
  text_of [] = []
  text_of (e ∷ es) = (host_line h e ++ 10 ∷ []) ++ text_of es

  appended :
      (f : h.FilePath) (t line : Text) (w w' : W)
      → h.read f w ≡ ok t
      → h.append f line w ≡ (ok tt, w')
      → h.read f w' ≡ ok (t ++ line)
  appended f t line w w' r e =
      sym (ap (λ (x : Result (Unit {0}) (Unit {0}) × W). h.read f x.1) e)
      ∙ laws.append_read f t line w r (ap (λ (x : Result (Unit {0}) (Unit {0}) × W). x.0) e)

  write_entries-read :
      (f : h.FilePath) (es : CertStore h.ServerName) (t : Text) (w w' : W)
      → h.read f w ≡ ok t
      → write_entries h f es w ≡ (ok tt, w')
      → h.read f w' ≡ ok (t ++ text_of es)
  unfolding write_entries
  write_entries-read f [] t w w' r e =
      sym (ap (λ (x : Wrote h). h.read f x.1) e) ∙ r ∙ ap ok (sym (append-nil t))
  write_entries-read f (x ∷ es) t w w' r e =
      let (v, wrote, rest) =
        and_then-ok (h.append f (host_line h x ++ 10 ∷ []) w) (write_entries h f es) w' e in
      write_entries-read f es (t ++ (host_line h x ++ 10 ∷ [])) v w'
        (appended f t (host_line h x ++ 10 ∷ []) w v r wrote) rest
      ∙ ap ok (append_assoc t (host_line h x ++ 10 ∷ []) (text_of es))

  stored_text :
      (f : h.FilePath) (es : CertStore h.ServerName) (w w' : W)
      → store_known_hosts_to_file h f es w ≡ (ok tt, w')
      → h.read f w' ≡ ok (text_of es)
  unfolding store_known_hosts_to_file
  stored_text f es w w' e =
      let (w1, _, e1) =
        and_then-ok (create_parent h f w) (λ v. and_then h (h.create f v) (write_entries h f es)) w'
          e in
      let (w2, made, e2) = and_then-ok (h.create f w1) (write_entries h f es) w' e1 in
      write_entries-read f es [] w2 w'
        (sym (ap (λ (x : Result (Unit {0}) (Unit {0}) × W). h.read f x.1) made)
          ∙ laws.create_empty f w1 (ap (λ (x : Result (Unit {0}) (Unit {0}) × W). x.0) made))
        e2

  -- A fingerprint has 32 bytes.
  abbrev pub IsFingerprint : Entry h → Type 0
  IsFingerprint e = length e.1 ≡ 32

  lines_of :
      (es : CertStore h.ServerName)
      → All IsFingerprint es
      → split_lines [] (text_of es) ≡ map (host_line h) es
  unfolding split_lines
  lines_of [] s = refl
  lines_of (e ∷ es) s =
      ap (split_lines []) (append_assoc (host_line h e) (10 ∷ []) (text_of es))
      ∙ split_lines_first (host_line h e) (text_of es) (
          words-IsLine (h.show_name e.0) (h.encode e.1) (laws.name_is_word e.0)
            (laws.code_is_word e.1 (omega (arith, s.0))))
      ∙ ap (◌∷◌ (host_line h e)) (lines_of es s.1)

  parse_host_line : (e : Entry h) → IsFingerprint e → parse_known_host_line h (host_line h e) ≡ ok e
  unfolding parse_known_host_line
  parse_host_line e s =
      ap (parse_words h) (
        split_words_two (h.show_name e.0) (h.encode e.1) (laws.name_is_word e.0)
          (laws.code_is_word e.1 (omega (arith, s))))
      ∙ rw (laws.name_of-show_name e.0, laws.decode-encode e.1, s)

  -- No entry has the name of another.
  abbrev pub IsNew : Entry h → CertStore h.ServerName → Type 0
  IsNew e es = All (λ (x : Entry h). h.same_name x.0 e.0 ≡ false) es

  abbrev pub Distinct : CertStore h.ServerName → Type 0
  Distinct [] = Unit {0}
  Distinct (e ∷ es) = All (λ (x : Entry h). h.same_name e.0 x.0 ≡ false) es × Distinct es

  insert-IsNew :
      (e : Entry h) (es : CertStore h.ServerName) → IsNew e es → insert h e es ≡ es ++ e ∷ []
  unfolding insert
  insert-IsNew e [] n = refl
  insert-IsNew e (x ∷ es) n = rw n.0 (ap (◌∷◌ x) (insert-IsNew e es n.1))

  append-IsNew :
      (e : Entry h) (seen es : CertStore h.ServerName)
      → All (λ (x : Entry h). IsNew x seen) es
      → All (λ (x : Entry h). h.same_name e.0 x.0 ≡ false) es
      → All (λ (x : Entry h). IsNew x (seen ++ e ∷ [])) es
  append-IsNew e seen [] n d = tt
  append-IsNew e seen (x ∷ es) n d = (
    All-append (λ (y : Entry h). h.same_name y.0 x.0 ≡ false) seen (e ∷ []) n.0 (d.0, tt),
    append-IsNew e seen es n.1 d.1,
  )

  load_all :
      (es seen : CertStore h.ServerName)
      → All IsFingerprint es
      → Distinct es
      → All (λ (x : Entry h). IsNew x seen) es
      → load_lines h (map (host_line h) es) seen ≡ ok (seen ++ es)
  unfolding load_lines
  load_all [] seen s d n = ap ok (sym (append-nil seen))
  load_all (e ∷ es) seen s d n =
      rw (parse_host_line e s.0, load_lines)
        (ap (load_lines h (map (host_line h) es)) (insert-IsNew e seen n.0)
          ∙ load_all es (seen ++ e ∷ []) s.1 d.1 (append-IsNew e seen es n.1 d.0)
          ∙ ap ok (append_assoc seen (e ∷ []) es))

  nil-IsNew : (es : CertStore h.ServerName) → All (λ (x : Entry h). IsNew x []) es
  nil-IsNew [] = tt
  nil-IsNew (e ∷ es) = (tt, nil-IsNew es)

  -- If the entries have names of which no two are the same and fingerprints of 32 bytes, and
  -- storing them in a file succeeds, then loading that file answers these entries, in the order in
  -- which they were written, with the file.
  pub load-store :
      (f : h.FilePath) (es : CertStore h.ServerName) (w w' : W)
      → Distinct es
      → All IsFingerprint es
      → store_known_hosts_to_file h f es w ≡ (ok tt, w')
      → load_known_hosts_from_file h f w' ≡ ok (es, some f)
  unfolding load_known_hosts_from_file
  load-store f es w w' d s e =
      ap (λ (r : Result Text (Unit {0})). with_file h f (load_text h r)) (stored_text f es w w' e)
      ∙ ap (λ (ls : List Text). with_file h f (load_lines h ls [])) (lines_of es s)
      ∙ ap (with_file h f) (load_all es [] s d (nil-IsNew es))
