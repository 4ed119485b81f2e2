-- ===== src/Tests/Wire/Ledger.antt =====
-- Runs of the theorems on the ledger.
use community.Base.{
  ℕ, ◌+◌, ◌<◌, ◌^◌, ◌≡◌, ◌≢◌, refl, subst, true, false, some, arith, Bool-cases, inl, inr,
}
use community.Base.Result.{ok, is_ok}
use community.Data.Bytes.{Bytes, bytes, ◌==◌, ==_iff}
use community.Data.GoMap.{lookup}
use community.Data.GoMap.Sum.{sum}
use community.Data.Int64.{pos, pos_part}
use community.Tests.Wire.{
  gold, env, funded, gold_record, gold_supply, mint_data, burn_data, transfer_data,
}
use community.Wire.Ledger.{NoColon, total, Backing, IsBacked}
use community.Wire.Ledger.Operations.{mint_as-Minted, burn_as-Burned}
use community.Wire.Ledger.Supply.{Burned}
use community.Wire.Ledger.Transfer.{Transferred, transfer_as-Transferred, transfer_as-once}
use community.Wire.State.{account_key, sentinel}
use community.Wire.Supply.{mint_as, burn_as, check_mint, check_burn, check_funds}
use community.Wire.Transfers.{transfer_as, check_transfer, check_sender, check_recipient}
use community.Wire.Types.{SupplyRecord}

pub gold-NoColon : NoColon gold
gold-NoColon = (
  λ (e : ◌≡◌ {A = ℕ} 103 58). absurd (omega (arith, e)),
  (
    λ (e : ◌≡◌ {A = ℕ} 111 58). absurd (omega (arith, e)),
    (
      λ (e : ◌≡◌ {A = ℕ} 108 58). absurd (omega (arith, e)),
      (λ (e : ◌≡◌ {A = ℕ} 100 58). absurd (omega (arith, e)), tt),
    ),
  ),
)

sentinel-NoColon : NoColon sentinel
sentinel-NoColon = (λ (e : ◌≡◌ {A = ℕ} 95 58). absurd (omega (arith, e)), tt)

nothing_else : (y : Bytes) → (gold == y) ≡ false → total y funded.accounts ≡ 0
unfolding total sum
nothing_else y e = ground arith

gold-Backing :
    (y : Bytes) → gold ≡ y → Backing (some gold_record) (some gold_supply) (total y funded.accounts)
unfolding total sum ◌==◌
gold-Backing y e =
    subst (λ z. Backing (some gold_record) (some gold_supply) (total z funded.accounts)) e
      (refl, refl, omega arith, refl, refl)

pub funded-IsBacked : IsBacked funded
unfolding lookup account_key ◌==◌
funded-IsBacked = record {
  filed = (
    record { own_key = refl; no_colon = gold-NoColon; no_debt = refl },
    (
      record { own_key = refl; no_colon = gold-NoColon; no_debt = refl },
      (record { own_key = refl; no_colon = sentinel-NoColon; no_debt = refl }, tt),
    ),
  );
  unique = (refl, (refl, (refl, tt)));
  named = (gold-NoColon, tt);
  backing = λ y. elim (Bool-cases (gold == y)) [
    | inl e ↦ rw (lookup, e) (gold-Backing y ((==_iff gold y).0 e))
    | inr e ↦ rw (lookup, e) (nothing_else y e)
  ];
}

gold_room :
    (sup : SupplyRecord)
    → lookup gold funded.supply ≡ some sup
    → pos_part sup.total_minted + 100 < 2 ^ 63
unfolding lookup ◌==◌
gold_room sup e = ground arith

funded-check_mint : check_mint mint_data funded ≡ ok tt
unfolding check_mint lookup ◌==◌
funded-check_mint = refl

mint_as-Minted_example : total gold (mint_as (pos 5) mint_data funded).1.accounts ≡ 210
unfolding total sum ◌==◌
mint_as-Minted_example =
    (mint_as-Minted (pos 5) mint_data funded funded-IsBacked funded-check_mint (omega arith)
      gold_room).1.more

funded-check_burn : check_burn burn_data funded ≡ ok tt
unfolding check_burn check_funds lookup ◌==◌ account_key
funded-check_burn = refl

burn_as-Burned_example :
    (is_ok (burn_as (pos 5) burn_data funded).0 ≡ true)
    × Burned gold 40 funded (burn_as (pos 5) burn_data funded).1
burn_as-Burned_example =
    burn_as-Burned (pos 5) burn_data funded funded-IsBacked funded-check_burn (omega arith)

funded-check_transfer : check_transfer (transfer_data (bytes "t")) funded ≡ ok tt
unfolding check_transfer check_sender check_recipient lookup ◌==◌ account_key
funded-check_transfer = refl

transfer_as-Transferred_example :
    (is_ok (transfer_as env (pos 5) (transfer_data (bytes "t")) funded).0 ≡ true)
    × Transferred env
        (transfer_data (bytes "t"))
        funded
        (transfer_as env (pos 5) (transfer_data (bytes "t")) funded).1
transfer_as-Transferred_example =
    transfer_as-Transferred env (pos 5) (transfer_data (bytes "t")) funded funded-IsBacked
      funded-check_transfer (omega arith)

transfer_as-once_run :
    check_transfer
      (transfer_data (bytes "u"))
      (transfer_as env (pos 5) (transfer_data (bytes "t")) funded).1
    ≢ ok tt
transfer_as-once_run =
    transfer_as-once env (pos 5) (transfer_data (bytes "t")) (transfer_data (bytes "u")) funded
      funded-IsBacked funded-check_transfer (omega arith) refl
