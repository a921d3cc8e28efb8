-- ===== src/Codec.antt =====
-- The byte layer of every `serialize` and `deserialize` in src/state, src/consensus and src/crypto.
-- Bytes are numbers below 256. A fixed array of bytes (Address, Blake3Hash, a key, a signature) is
-- the number that its bytes spell, first byte highest, so that its `==` and `<` are those of ℕ.
use mathlib.Core.List.{reverse, reverse-reverse}
use native.Mathlib.Nat.{pow-suc}
use sarafu_core.Base.{
  ℕ, zero, suc, ◌+◌, ◌*◌, ◌/◌, ◌%◌, ◌^◌, ◌<◌, ◌≡◌, refl, ap, Option, none, some, List, [], ◌∷◌,
  ◌++◌, arith, leb, if◌then◌else◌, length, take, drop, length-reverse, take-append_length,
  drop-append_length, length-append, append_assoc, All,
}

-- `for (i = 0; i < n; ++i) result.push_back((v >> (i * 8)) & 0xFF);`
unfoldable pub le_bytes : ℕ → ℕ → List ℕ
le_bytes zero v = []
le_bytes (suc n) v = (v % 256) ∷ le_bytes n (v / 256)

-- `for (i = 0; i < n; ++i) v |= data[offset + i] << (i * 8);`, where the lanes do not overlap.
unfoldable pub le_value : List ℕ → ℕ
le_value [] = 0
le_value (b ∷ bs) = b + 256 * le_value bs

unfoldable pub be_bytes : ℕ → ℕ → List ℕ
unfolding le_bytes
be_bytes n v = reverse (le_bytes n v)

unfoldable pub be_value : List ℕ → ℕ
unfolding le_value
be_value bs = le_value (reverse bs)

pub length-le_bytes : (n v : ℕ) → length (le_bytes n v) ≡ n
unfolding le_bytes
length-le_bytes zero v = refl
length-le_bytes (suc n) v = ap suc (length-le_bytes n (v / 256))

pub length-be_bytes : (n v : ℕ) → length (be_bytes n v) ≡ n
unfolding be_bytes
length-be_bytes n v = rw (length-reverse (le_bytes n v)) (length-le_bytes n v)

pub le_value-le_bytes : (n v : ℕ) → v < 256 ^ n → le_value (le_bytes n v) ≡ v
unfolding le_bytes le_value
le_value-le_bytes zero v h = omega arith
le_value-le_bytes (suc n) v h =
    omega (arith, le_value-le_bytes n (v / 256) (omega (arith, pow-suc 256 n)))

pub be_value-be_bytes : (n v : ℕ) → v < 256 ^ n → be_value (be_bytes n v) ≡ v
unfolding be_value be_bytes
be_value-be_bytes n v h = rw (reverse-reverse (le_bytes n v)) (le_value-le_bytes n v h)

-- A decoder holds the bytes from `offset` on. `none` is a thrown exception.
abbrev pub Decoder : Type 0 → Type 0
Decoder A = List ℕ → Option (A × List ℕ)

abbrev pub pure : {A : Type 0} → A → Decoder A
pure a rest = some (a, rest)

infixl 5 ◌>>=◌
abbrev pub ◌>>=◌ : {A B : Type 0} → Decoder A → (A → Decoder B) → Decoder B
◌>>=◌ m f rest = elim (m rest) [ none ↦ none | some (a, rest') ↦ f a rest' ]

-- `data[offset .. offset + n)`, and `offset += n`.
unfoldable pub read_bytes : ℕ → Decoder (List ℕ)
read_bytes n rest = if leb n (length rest) then some (take n rest, drop n rest) else none

unfoldable pub read_le : ℕ → Decoder ℕ
read_le n = do bs ← read_bytes n; pure (le_value bs)

unfoldable pub read_be : ℕ → Decoder ℕ
read_be n = do bs ← read_bytes n; pure (be_value bs)

pub read_bytes-append :
    (n : ℕ) (xs ys : List ℕ) → length xs ≡ n → read_bytes n (xs ++ ys) ≡ some (xs, ys)
unfolding read_bytes
read_bytes-append n xs ys h =
    rw (← h)
      (ground (arith, length-append xs ys, take-append_length xs ys, drop-append_length xs ys))

pub read_le-append :
    (n v : ℕ) (rest : List ℕ) → v < 256 ^ n → read_le n (le_bytes n v ++ rest) ≡ some (v, rest)
unfolding read_le
read_le-append n v rest h =
    rw (
      read_bytes-append n (le_bytes n v) rest (length-le_bytes n v),
      ◌>>=◌,
      le_value-le_bytes n v h,
    )

pub read_be-append :
    (n v : ℕ) (rest : List ℕ) → v < 256 ^ n → read_be n (be_bytes n v ++ rest) ≡ some (v, rest)
unfolding read_be
read_be-append n v rest h =
    rw (
      read_bytes-append n (be_bytes n v) rest (length-be_bytes n v),
      ◌>>=◌,
      be_value-be_bytes n v h,
    )

-- What a decoder has read, if it has not thrown.
abbrev pub result : {A : Type 0} → Option (A × List ℕ) → Option A
result none = none
result (some (a, rest)) = some a

-- `data[offset]`, and `offset += 1`.
unfoldable pub read_byte : Decoder ℕ
read_byte [] = none
read_byte (b ∷ rest) = some (b, rest)

pub read_byte-cons : (b : ℕ) (rest : List ℕ) → read_byte (b ∷ rest) ≡ some (b, rest)
unfolding read_byte
read_byte-cons b rest = refl

-- A counted loop of decodings. The loop's own test of the remaining size is that of `read_bytes`.
unfoldable pub read_many : {A : Type 0} → ℕ → Decoder A → Decoder (List A)
read_many zero d = pure []
read_many (suc n) d = do x ← d; xs ← read_many n d; pure (x ∷ xs)

-- The encodings of a list, one after the other.
unfoldable pub write_many : {A : Type 0} → (A → List ℕ) → List A → List ℕ
write_many enc [] = []
write_many enc (x ∷ xs) = enc x ++ write_many enc xs

pub read_many-append :
    {A : Type 0} (P : A → Type 0) (enc : A → List ℕ) (d : Decoder A)
    → ((x : A) (rest : List ℕ) → P x → d (enc x ++ rest) ≡ some (x, rest))
    → (xs : List A) (rest : List ℕ) → All P xs
    → read_many (length xs) d (write_many enc xs ++ rest) ≡ some (xs, rest)
unfolding read_many write_many
read_many-append P enc d back [] rest h = refl
read_many-append P enc d back (x ∷ xs) rest h = simp (
  append_assoc,
  ◌>>=◌,
  back x (write_many enc xs ++ rest) h.0,
  read_many-append P enc d back xs rest h.1,
)
