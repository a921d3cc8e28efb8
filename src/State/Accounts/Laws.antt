-- ===== src/State/Accounts/Laws.antt =====
-- What each call of the account manager does to the balances, the nonces and their sum.
use sarafu_core.Base.{
  ℕ, ◌+◌, ◌<◌, ◌≤◌, ◌≡◌, refl, some, [], ◌∷◌, ◌==◌, if◌then◌else◌, arith, Option-cases, inl, inr,
}
use sarafu_core.Base.Word.{u64_mod, add64, sub64}
use sarafu_core.Base.Map.{
  From, lookup, insert, insert-From, lookup-insert, sum_over, sum_over-insert, sum_over-lookup-le,
}
use sarafu_core.State.Types.{Address, Account}
use sarafu_core.State.Accounts.{
  Accounts, get_account, update_account, increment_nonce, deduct_balance, add_balance,
}

-- Every account is filed under its own address.
abbrev pub Keyed : Accounts → Type 0
Keyed [] = Unit
Keyed ((k, a) ∷ m) = (a.address ≡ k) × Keyed m

pub record IsValid (m : Accounts) : Type 0 where
  pub ordered : From 0 m
  pub keyed : Keyed m

-- The sum of all balances, as a number that does not wrap.
abbrev pub total : Accounts → ℕ
total = sum_over (λ a. a.balance)

insert-Keyed : (k : ℕ) (a : Account) (m : Accounts) → a.address ≡ k → Keyed m → Keyed (insert k a m)
insert-Keyed k a [] e h = (e, tt)
insert-Keyed k a ((j, b) ∷ m) e h = ground (arith, insert-Keyed k a m e h.1)

lookup-Keyed : (k : ℕ) (a : Account) (m : Accounts) → Keyed m → lookup k m ≡ some a → a.address ≡ k
lookup-Keyed k a [] h e = ground arith
lookup-Keyed k a ((j, b) ∷ m) h e = ground (arith, lookup-Keyed k a m h.1)

pub get_account-address : (m : Accounts) (a : Address) → IsValid m → (get_account m a).address ≡ a
unfolding get_account
get_account-address m a v = elim (Option-cases (lookup a m)) [
  | inl e ↦ rw (e, get_account)
  | inr (acc, e) ↦ rw (e, get_account) (lookup-Keyed a acc m v.keyed e)
]

pub update_account-IsValid :
    (m : Accounts) (acc : Account) → IsValid m → IsValid (update_account m acc)
unfolding update_account
update_account-IsValid m acc v = record {
  ordered = insert-From 0 acc.address acc m (omega arith) v.ordered;
  keyed = insert-Keyed acc.address acc m refl v.keyed;
}

pub get_account-update_account :
    (m : Accounts) (acc : Account) (b : Address)
    → get_account (update_account m acc) b ≡ (if b == acc.address then acc else get_account m b)
unfolding get_account update_account
get_account-update_account m acc b = ground (arith, lookup-insert b acc.address acc m)

pub total-update_account :
    (m : Accounts) (a : Address) (acc : Account)
    → IsValid m
    → acc.address ≡ a
    → total (update_account m acc) + (get_account m a).balance ≡ total m + acc.balance
unfolding get_account update_account
total-update_account m a acc v e =
    ground (arith, sum_over-insert (λ (b : Account). b.balance) 0 acc.address acc m v.ordered)

pub balance-le-total : (m : Accounts) (a : Address) → (get_account m a).balance ≤ total m
unfolding get_account
balance-le-total m a = ground (arith, sum_over-lookup-le (λ (a : Account). a.balance) a m)

-- Each change of one account, on a valid map.
module _ (m : Accounts) (a : Address) (v : IsValid m) where
  pub increment_nonce-IsValid : IsValid (increment_nonce m a)
  unfolding increment_nonce
  increment_nonce-IsValid = update_account-IsValid m _ v

  pub deduct_balance-IsValid : (x : ℕ) → IsValid (deduct_balance m a x)
  unfolding deduct_balance
  deduct_balance-IsValid x = update_account-IsValid m _ v

  pub add_balance-IsValid : (x : ℕ) → IsValid (add_balance m a x)
  unfolding add_balance
  add_balance-IsValid x = update_account-IsValid m _ v

  pub total-increment_nonce : total (increment_nonce m a) ≡ total m
  unfolding increment_nonce
  total-increment_nonce = omega (
    arith,
    total-update_account m a (record (get_account m a) { nonce = add64 (get_account m a).nonce 1 })
        v (get_account-address m a v),
  )

  pub total-deduct_balance :
      (x : ℕ)
      → x ≤ (get_account m a).balance
      → total m < u64_mod
      → total (deduct_balance m a x) + x ≡ total m
  unfolding deduct_balance
  total-deduct_balance x h b = omega (
    arith,
    total-update_account m a
        (record (get_account m a) { balance = sub64 (get_account m a).balance x }) v
        (get_account-address m a v),
    balance-le-total m a,
  )

  pub total-add_balance : (x : ℕ) → total m + x < u64_mod → total (add_balance m a x) ≡ total m + x
  unfolding add_balance
  total-add_balance x b = omega (
    arith,
    total-update_account m a
        (record (get_account m a) { balance = add64 (get_account m a).balance x }) v
        (get_account-address m a v),
    balance-le-total m a,
  )

  pub get_account-increment_nonce :
      (b : Address)
      → get_account (increment_nonce m a) b ≡ (
          if b == a
          then record (get_account m a) { nonce = add64 (get_account m a).nonce 1 }
          else get_account m b)
  unfolding increment_nonce
  get_account-increment_nonce b = ground (
    arith,
    get_account-update_account m
        (record (get_account m a) { nonce = add64 (get_account m a).nonce 1 }) b,
    get_account-address m a v,
  )

  pub get_account-deduct_balance :
      (x : ℕ) (b : Address)
      → get_account (deduct_balance m a x) b ≡ (
          if b == a
          then record (get_account m a) { balance = sub64 (get_account m a).balance x }
          else get_account m b)
  unfolding deduct_balance
  get_account-deduct_balance x b = ground (
    arith,
    get_account-update_account m
        (record (get_account m a) { balance = sub64 (get_account m a).balance x }) b,
    get_account-address m a v,
  )

  pub get_account-add_balance :
      (x : ℕ) (b : Address)
      → get_account (add_balance m a x) b ≡ (
          if b == a
          then record (get_account m a) { balance = add64 (get_account m a).balance x }
          else get_account m b)
  unfolding add_balance
  get_account-add_balance x b = ground (
    arith,
    get_account-update_account m
        (record (get_account m a) { balance = add64 (get_account m a).balance x }) b,
    get_account-address m a v,
  )
