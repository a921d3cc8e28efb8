-- ===== src/State/Accounts.antt =====
-- src/state/account_manager.cpp: the accounts by address. The object's only field is the map.
pub mod Laws
use sarafu_core.Base.{ℕ, Bool, none, some, ◌==◌, leb}
use sarafu_core.Base.Word.{add64, sub64}
use sarafu_core.Base.Map.{Map, lookup, insert}
use sarafu_core.Base.Map
use sarafu_core.State.Types.{Address, Account}

abbrev pub Accounts : Type 0
Accounts = Map Account

abbrev pub new_account : Address → ℕ → Account
new_account address balance = record {
  address = address;
  balance = balance;
  nonce = 0;
  code_hash = 0;
}

unfoldable pub get_account : Accounts → Address → Account
get_account m address = elim (lookup address m) [
  | none ↦ new_account address 0
  | some account ↦ account
]

unfoldable pub update_account : Accounts → Account → Accounts
update_account m account = insert account.address account m

unfoldable pub create_account : Accounts → Address → ℕ → Accounts
create_account m address balance = insert address (new_account address balance) m

unfoldable pub get_nonce : Accounts → Address → ℕ
get_nonce m address = (get_account m address).nonce

unfoldable pub get_balance : Accounts → Address → ℕ
get_balance m address = (get_account m address).balance

unfoldable pub account_exists : Accounts → Address → Bool
account_exists m address = Map.contains address m

unfoldable pub validate_nonce : Accounts → Address → ℕ → Bool
validate_nonce m address transaction_nonce = (get_account m address).nonce == transaction_nonce

unfoldable pub has_sufficient_balance : Accounts → Address → ℕ → Bool
has_sufficient_balance m address required = leb required (get_account m address).balance

unfoldable pub increment_nonce : Accounts → Address → Accounts
increment_nonce m address =
    let account = get_account m address in
    update_account m (record account { nonce = add64 account.nonce 1 })

unfoldable pub deduct_balance : Accounts → Address → ℕ → Accounts
deduct_balance m address amount =
    let account = get_account m address in
    update_account m (record account { balance = sub64 account.balance amount })

unfoldable pub add_balance : Accounts → Address → ℕ → Accounts
add_balance m address amount =
    let account = get_account m address in
    update_account m (record account { balance = add64 account.balance amount })
