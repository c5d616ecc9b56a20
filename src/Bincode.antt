-- ===== src/Bincode.antt =====
-- The `bincode` and `serde` crates, which are not part of the repository, as a parameter: the two
-- calls on the messages of one type, and what their documentation promises.
use bevy_quinnet.Base.{ℕ, ◌≡◌, List, [], ◌∷◌, Result, ok, err, length}
use bevy_quinnet.Buffer.{Bytes}

-- `encode_to_vec` and `decode_from_slice`, with `bincode::config::standard()`; a decoding also
-- answers how many bytes it read.
pub record Bincode (T : Type 0) : Type 0 where
  pub encode_to_vec : T → Result Bytes (Unit {0})
  pub decode_from_slice : Bytes → Result (T × ℕ) (Unit {0})

pub record BincodeLaws {T : Type 0} (c : Bincode T) : Type 0 where
  pub decode-encode :
      (m : T) (payload : Bytes)
      → c.encode_to_vec m ≡ ok payload
      → c.decode_from_slice payload ≡ ok (m, length payload)

-- These payloads are those of these messages.
abbrev pub Encodes : {T : Type 0} → Bincode T → List T → List Bytes → Type 0
Encodes c [] [] = Unit {0}
Encodes c [] (p ∷ ps) = ⊥
Encodes c (m ∷ ms) [] = ⊥
Encodes c (m ∷ ms) (p ∷ ps) = (c.encode_to_vec m ≡ ok p) × Encodes c ms ps

-- Numbers in one byte, as an instance.
abbrev one_byte : Bytes → Result (ℕ × ℕ) (Unit {0})
one_byte [] = err tt
one_byte (x ∷ xs) = ok (x, 1)

abbrev pub bytes_codec : Bincode ℕ
bytes_codec = record { encode_to_vec = λ n. ok (n ∷ []); decode_from_slice = one_byte }
