-- ===== src/State/Messages.antt =====
-- The error texts of src/state/transaction_validator.cpp and transaction_executor.cpp.
use Prim.Native.Char.{code}
use Prim.Native.String.{String}
use sarafu_core.Base.{ℕ, zero, suc, ◌+◌, ◌/◌, ◌%◌, Bool, List, [], ◌∷◌, ◌++◌, ltb}

-- The reasons for which a transaction is refused, in the order of the checks.
pub data TxError : Type 0 where
  zero_from zero_to negative_amount : TxError
  bad_chain_id : ℕ → ℕ → TxError
  bad_signature : TxError
  bad_nonce : ℕ → ℕ → TxError
  insufficient : ℕ → ℕ → TxError

-- The bytes of an ASCII text.
abbrev pub codes : String → List ℕ
codes String.[] = []
codes (String.◌∷◌ c s) = code c ∷ codes s

-- `oss << n`: the decimal digits, highest first. A uint64_t has at most 20.
pub digits : ℕ → ℕ → List ℕ → List ℕ
digits zero n acc = acc
digits (suc fuel) n acc = elim (ltb n 10) [
  | Bool.true ↦ (48 + n) ∷ acc
  | Bool.false ↦ digits fuel (n / 10) ((48 + n % 10) ∷ acc)
]

pub decimal : ℕ → List ℕ
decimal n = digits 20 n []

unfoldable pub message : TxError → List ℕ
message zero_from = codes "Transaction from address cannot be zero address"
message zero_to = codes "Transaction to address cannot be zero address"
message negative_amount = codes "Transaction amounts must be non-negative"
message (bad_chain_id expected got) =
    codes "Invalid chain ID: expected " ++ (decimal expected ++ (codes ", got " ++ decimal got))
message bad_signature = codes "Invalid transaction signature"
message (bad_nonce expected got) =
    codes "Invalid nonce: expected " ++ (decimal expected ++ (codes ", got " ++ decimal got))
message (insufficient have need) =
    codes "Insufficient balance: have " ++ (decimal have ++ (codes ", need " ++ decimal need))
