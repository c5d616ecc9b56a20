-- ===== src/KnownHosts/Tests.antt =====
-- Two known hosts in a file. A name is `a` or `b`, and a byte is encoded in unary.
use bevy_quinnet.Base.{
  ℕ, zero, suc, ◌+◌, ◌<◌, ◌≡◌, refl, ap, ◌∙◌, [], ◌∷◌, ◌++◌, none, some, Result, ok, err, Bool,
  true, false, ◌==◌, length, All, replicate, arith,
}
use bevy_quinnet.Buffer.{Bytes}
use bevy_quinnet.Certificate.{CertStore}
use bevy_quinnet.KnownHosts.{
  Text, Hosts, HostsLaws, is_whitespace, store_known_hosts_to_file, load_known_hosts_from_file,
}
use bevy_quinnet.KnownHosts.Loading.{load-store}

abbrev encode : Bytes → Text
encode [] = []
encode (n ∷ ns) = replicate n 98 ++ 97 ∷ encode ns

abbrev decode_onto : ℕ → Text → Bytes
decode_onto n [] = []
decode_onto n (c ∷ cs) = elim (c == 97) [
  | true ↦ n ∷ decode_onto 0 cs
  | false ↦ decode_onto (n + 1) cs
]

decode_unary :
    (n m : ℕ) (rest : Text)
    → decode_onto m (replicate n 98 ++ 97 ∷ rest) ≡ (m + n) ∷ decode_onto 0 rest
decode_unary zero m rest = ap (λ (k : ℕ). k ∷ decode_onto 0 rest) (omega arith)
decode_unary (suc n) m rest =
    decode_unary n (m + 1) rest ∙ ap (λ (k : ℕ). k ∷ decode_onto 0 rest) (omega arith)

decode-encode : (ns : Bytes) → decode_onto 0 (encode ns) ≡ ns
decode-encode [] = refl
decode-encode (n ∷ ns) =
    decode_unary n 0 (encode ns)
    ∙ ap (λ (k : ℕ). k ∷ decode_onto 0 (encode ns)) (omega arith)
    ∙ ap (◌∷◌ n) (decode-encode ns)

abbrev IsPlain : Text → Type 0
IsPlain t = All (λ c. is_whitespace c ≡ false) t

unary-IsPlain : (n : ℕ) (rest : Text) → IsPlain rest → IsPlain (replicate n 98 ++ 97 ∷ rest)
unfolding is_whitespace
unary-IsPlain zero rest h = (refl, h)
unary-IsPlain (suc n) rest h = (refl, unary-IsPlain n rest h)

encode-IsPlain : (ns : Bytes) → IsPlain (encode ns)
encode-IsPlain [] = tt
encode-IsPlain (n ∷ ns) = unary-IsPlain n (encode ns) (encode-IsPlain ns)

unary_pos : (n : ℕ) (rest : Text) → 0 < length (replicate n 98 ++ 97 ∷ rest)
unary_pos zero rest = omega arith
unary_pos (suc n) rest = omega arith

encode_pos : (ns : Bytes) → 0 < length ns → 0 < length (encode ns)
encode_pos [] h = absurd (omega arith)
encode_pos (n ∷ ns) h = unary_pos n (encode ns)

abbrev show : Bool → Text
show true = 97 ∷ []
show false = 98 ∷ []

abbrev name_of : Text → Result Bool (Unit {0})
name_of [] = err tt
name_of (c ∷ cs) = ok (c == 97)

abbrev same : Bool → Bool → Bool
same true b = b
same false true = false
same false false = true

-- The world is one file.
abbrev hosts : Hosts Text
hosts = record {
  ServerName = Bool;
  same_name = same;
  show_name = show;
  name_of = name_of;
  encode = encode;
  decode = λ t. ok (decode_onto 0 t);
  FilePath = Unit {0};
  parent = λ f. none;
  exists = λ f w. true;
  create_dir_all = λ f w. (ok tt, w);
  create = λ f w. (ok tt, []);
  append = λ f line w. (ok tt, w ++ line);
  read = λ f w. ok w;
}

name_is_word : (n : Bool) → (0 < length (show n)) × IsPlain (show n)
unfolding is_whitespace
name_is_word true = (omega arith, (refl, tt))
name_is_word false = (omega arith, (refl, tt))

name_of-show : (n : Bool) → name_of (show n) ≡ ok n
name_of-show true = refl
name_of-show false = refl

hosts_laws : HostsLaws hosts
hosts_laws = record {
  name_is_word = name_is_word;
  name_of-show_name = name_of-show;
  code_is_word = λ bytes h. (encode_pos bytes h, encode-IsPlain bytes);
  decode-encode = λ bytes. ap ok (decode-encode bytes);
  create_empty = λ f w e. refl;
  append_read = λ f t line w r e. ap (λ (x : Result Text (Unit {0})). append_to x line) r;
}
  where
    append_to : Result Text (Unit {0}) → Text → Result Text (Unit {0})
    append_to (ok t) line = ok (t ++ line)
    append_to (err x) line = err x

abbrev two_hosts : CertStore Bool
two_hosts = (true, replicate 32 1) ∷ (false, replicate 32 0) ∷ []

load-store_example :
    load_known_hosts_from_file hosts tt (store_known_hosts_to_file hosts tt two_hosts []).1
    ≡ ok (two_hosts, some tt)
unfolding store_known_hosts_to_file
load-store_example =
    load-store hosts hosts_laws tt two_hosts [] (store_known_hosts_to_file hosts tt two_hosts []).1
      ((refl, tt), (tt, tt)) (refl, (refl, tt)) refl
