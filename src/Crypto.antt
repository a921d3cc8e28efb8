-- ===== src/Crypto.antt =====
-- What src/crypto takes from the libraries blake3, libsodium and blst, as parameters.
pub mod Merkle
use sarafu_core.Base.{ℕ, ◌++◌, List, [], ◌∷◌, Bool, true, ◌&&◌, Option, none, some, if◌then◌else◌}
use sarafu_core.Codec.{be_bytes}

-- `blake3` is Blake3Hash::hash; `verify` is Ed25519::verify; `aggregate` and `verify_aggregated`
-- are those of BLS12_381, on bytes that are signatures, which `well_formed` tests: blst_p2_uncompress
-- reads them, and what they give is in G2. Their arguments come in the order of the source.
pub record Primitives : Type 0 where
  pub blake3 : List ℕ → ℕ
  pub verify : ℕ → List ℕ → ℕ → Bool
  pub well_formed : ℕ → Bool
  pub aggregate : List ℕ → ℕ
  pub verify_aggregated : ℕ → List ℕ → List ℕ → Bool

-- `MerkleTree::hash_pair`: the hash of the two hashes one after the other.
unfoldable pub hash_pair : Primitives → ℕ → ℕ → ℕ
hash_pair p left right = p.blake3 (be_bytes 32 left ++ be_bytes 32 right)

abbrev pub all_of : (ℕ → Bool) → List ℕ → Bool
all_of ok [] = true
all_of ok (x ∷ xs) = ok x && all_of ok xs

-- BLS12_381::aggregate: `none` is an exception, for an empty list or for bytes that are not a signature.
unfoldable pub bls_aggregate : Primitives → List ℕ → Option ℕ
bls_aggregate p [] = none
bls_aggregate p (s ∷ ss) =
    if all_of p.well_formed (s ∷ ss) then some (p.aggregate (s ∷ ss)) else none
