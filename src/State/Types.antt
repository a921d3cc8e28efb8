-- ===== src/State/Types.antt =====
-- The data of include/sarafu/state/account.h and transaction.h.
-- An address, a hash, a key and a signature are the numbers that their bytes spell.
use sarafu_core.Base.{ℕ, ◌^◌, ◌<◌, Bool, List, length}
use sarafu_core.Base.Word.{u64_mod, u32_mod}

abbrev pub Address : Type 0
Address = ℕ

abbrev pub Hash : Type 0
Hash = ℕ

pub record Account : Type 0 where
  pub address : Address
  pub balance : ℕ
  pub nonce : ℕ
  pub code_hash : Hash

pub record Transaction : Type 0 where
  pub from : Address
  pub to : Address
  pub amount : ℕ
  pub nonce : ℕ
  pub fee : ℕ
  pub gas_limit : ℕ
  pub chain_id : ℕ
  pub signature : ℕ

-- The message of a receipt is the bytes of the std::string.
pub record TransactionReceipt : Type 0 where
  pub tx_hash : Hash
  pub block_height : ℕ
  pub success : Bool
  pub gas_used : ℕ
  pub error_message : List ℕ

-- The ranges of the C++ types.
pub record AccountFits (a : Account) : Type 0 where
  pub address_fits : a.address < 256 ^ 32
  pub balance_fits : a.balance < u64_mod
  pub nonce_fits : a.nonce < u64_mod
  pub code_hash_fits : a.code_hash < 256 ^ 32

pub record TransactionFits (tx : Transaction) : Type 0 where
  pub from_fits : tx.from < 256 ^ 32
  pub to_fits : tx.to < 256 ^ 32
  pub amount_fits : tx.amount < u64_mod
  pub nonce_fits : tx.nonce < u64_mod
  pub fee_fits : tx.fee < u64_mod
  pub gas_limit_fits : tx.gas_limit < u64_mod
  pub chain_id_fits : tx.chain_id < u32_mod
  pub signature_fits : tx.signature < 256 ^ 64

pub record ReceiptFits (r : TransactionReceipt) : Type 0 where
  pub tx_hash_fits : r.tx_hash < 256 ^ 32
  pub block_height_fits : r.block_height < u64_mod
  pub gas_used_fits : r.gas_used < u64_mod
  pub message_fits : length r.error_message < u32_mod
