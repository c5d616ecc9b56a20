-- ===== src/Buffer.antt =====
-- The `bytes` crate, which is not part of the repository: a buffer is the list of its bytes, and the
-- calls on it are a parameter. `BufferLaws` states what their documentation promises.
use bevy_quinnet.Base.{
  ℕ, zero, suc, ◌+◌, ◌*◌, ◌/◌, ◌%◌, ◌^◌, ◌≤◌, ◌<◌, ◌≡◌, refl, List, [], ◌∷◌, ◌++◌, Option, none,
  some, length, take, drop, arith, ◌∙◌, ap, length-append,
}
use native.Mathlib.Nat.{pow-suc, mod-eq_of_lt}

abbrev pub Bytes : Type 0
Bytes = List ℕ

pub record Buffer : Type 0 where
  -- `dst.put_uint(n, nbytes)`, `dst.put_u8(n)`, `dst.extend_from_slice(src)`
  pub put_uint : ℕ → ℕ → Bytes → Bytes
  pub put_u8 : ℕ → Bytes → Bytes
  pub extend_from_slice : Bytes → Bytes → Bytes
  -- `Cursor::new(src).get_uint(nbytes)`, and `get_u8`, which panics at the end of the buffer
  pub get_uint : ℕ → Bytes → ℕ
  pub get_u8 : Bytes → Option ℕ
  -- `src.advance(n)`
  pub advance : ℕ → Bytes → Bytes
  -- `src.split_to(at)`: what is returned, and what stays in `src`
  pub split_to : ℕ → Bytes → Bytes × Bytes
  -- `src.split_off(at)`: what is returned, and what stays in `src`
  pub split_off : ℕ → Bytes → Bytes × Bytes

pub record BufferLaws (b : Buffer) : Type 0 where
  -- The `nbytes` bytes that `put_uint` appends for an integer.
  pub uint_bytes : ℕ → ℕ → Bytes
  pub length-uint_bytes : (n k : ℕ) → length (uint_bytes n k) ≡ k
  pub put_uint_lem : (n k : ℕ) (dst : Bytes) → b.put_uint n k dst ≡ dst ++ uint_bytes n k
  pub get_uint_lem :
      (n k : ℕ) (rest : Bytes) → n < 256 ^ k → b.get_uint k (uint_bytes n k ++ rest) ≡ n
  pub put_u8_lem : (n : ℕ) (dst : Bytes) → n < 256 → b.put_u8 n dst ≡ dst ++ n ∷ []
  pub extend_from_slice_lem : (src dst : Bytes) → b.extend_from_slice src dst ≡ dst ++ src
  pub get_u8_empty : b.get_u8 [] ≡ none
  pub get_u8_lem : (x : ℕ) (rest : Bytes) → b.get_u8 (x ∷ rest) ≡ some x
  pub advance_lem : (n : ℕ) (src : Bytes) → n ≤ length src → b.advance n src ≡ drop n src
  pub split_to_lem :
      (n : ℕ) (src : Bytes) → n ≤ length src → b.split_to n src ≡ (take n src, drop n src)
  pub split_off_lem :
      (n : ℕ) (src : Bytes) → n ≤ length src → b.split_off n src ≡ (drop n src, take n src)

-- Big-endian bytes, least significant last.
unfoldable pub be_bytes : ℕ → ℕ → Bytes
be_bytes n zero = []
be_bytes n (suc k) = be_bytes (n / 256) k ++ (n % 256) ∷ []

unfoldable pub be_value : ℕ → ℕ → Bytes → ℕ
be_value zero acc src = acc
be_value (suc k) acc [] = acc
be_value (suc k) acc (x ∷ src) = be_value k (acc * 256 + x) src

unfoldable pub first : Bytes → Option ℕ
first [] = none
first (x ∷ src) = some x

-- One implementation, which shows that the laws can be met.
unfoldable pub big_endian : Buffer
unfolding be_bytes be_value first
big_endian = record {
  put_uint = λ n k dst. dst ++ be_bytes n k;
  put_u8 = λ n dst. dst ++ (n % 256) ∷ [];
  extend_from_slice = λ src dst. dst ++ src;
  get_uint = λ k src. be_value k 0 src;
  get_u8 = first;
  advance = drop;
  split_to = λ n src. (take n src, drop n src);
  split_off = λ n src. (drop n src, take n src);
}

pub length-be_bytes : (n k : ℕ) → length (be_bytes n k) ≡ k
unfolding be_bytes
length-be_bytes n zero = refl
length-be_bytes n (suc k) =
    omega
      (arith, length-be_bytes (n / 256) k, length-append (be_bytes (n / 256) k) ((n % 256) ∷ []))

be_value-append :
    (k acc x : ℕ) (xs rest : Bytes)
    → length xs ≡ k
    → be_value (suc k) acc (xs ++ x ∷ rest) ≡ be_value k acc xs * 256 + x
unfolding be_value
be_value-append k acc x [] rest e = ground arith
be_value-append zero acc x (y ∷ xs) rest e = absurd (omega arith)
be_value-append (suc k) acc x (y ∷ xs) rest e =
    be_value-append k (acc * 256 + y) x xs rest (omega arith)

pub be_value_prefix :
    (k acc : ℕ) (xs rest : Bytes) → length xs ≡ k → be_value k acc (xs ++ rest) ≡ be_value k acc xs
unfolding be_value
be_value_prefix zero acc [] rest e = refl
be_value_prefix zero acc (y ∷ xs) rest e = absurd (omega arith)
be_value_prefix (suc k) acc [] rest e = absurd (omega arith)
be_value_prefix (suc k) acc (y ∷ xs) rest e =
    be_value_prefix k (acc * 256 + y) xs rest (omega arith)

pub be_value-be_bytes : (n k : ℕ) → n < 256 ^ k → be_value k 0 (be_bytes n k) ≡ n
unfolding be_bytes
be_value-be_bytes n zero h = unfold be_value in omega arith
be_value-be_bytes n (suc k) h =
    be_value-append k 0 (n % 256) (be_bytes (n / 256) k) [] (length-be_bytes (n / 256) k)
    ∙ omega (arith, be_value-be_bytes (n / 256) k small)
  where
    small : n / 256 < 256 ^ k
    small = let h' : n < 256 ^ k * 256 = rw pow-suc at h in omega arith

unfoldable pub big_endian_laws : BufferLaws big_endian
unfolding big_endian
big_endian_laws = record {
  uint_bytes = be_bytes;
  length-uint_bytes = length-be_bytes;
  put_uint_lem = λ n k dst. refl;
  get_uint_lem = λ n k rest h.
      be_value_prefix k 0 (be_bytes n k) rest (length-be_bytes n k) ∙ be_value-be_bytes n k h;
  put_u8_lem = λ n dst h. ap (λ (t : ℕ). dst ++ t ∷ []) (mod-eq_of_lt h);
  extend_from_slice_lem = λ src dst. refl;
  get_u8_empty = refl;
  get_u8_lem = λ x rest. refl;
  advance_lem = λ n src h. refl;
  split_to_lem = λ n src h. refl;
  split_off_lem = λ n src h. refl;
}
