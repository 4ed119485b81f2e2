-- ===== src/Tests/Wire/Reach.antt =====
-- A run from a new state: gold is registered, minted, and the block is committed.
use community.Base.{◌≢◌, ℕ, ◌+◌, ◌<◌, ◌^◌, ◌≡◌, refl, sym, ap, subst, none, some, [], ◌∷◌, arith}
use community.Data.Bytes.{Bytes, bytes, ◌==◌}
use community.Data.GoMap.{lookup, insert}
use community.Data.Int64.{ℤ, pos, pos_part, ◌+ℤ◌, ◌-ℤ◌}
use community.Tests.Wire.{gold, env, options, asset_data, mint_data}
use community.Tests.Wire.Ledger.{gold-NoColon}
use community.Wire.App.{check_tx, execute_raw}
use community.Wire.Dispatch.{
  tx_validate, validate_tx, validate_kind, check_kind, execute_tx, execute_kind,
}
use community.Wire.Ledger.{NoColon}
use community.Wire.Ledger.Reach.{
  Reached, start, accepted, commits, Conservation, Reached-Conservation, Reached-executes,
}
use community.Wire.Ledger.Sound.{BurnReadsAsMint, Conserving}
use community.Wire.State.{
  State, empty_state, new_state_with_options, account_key, update_account, update_supply, done,
}
use community.Voting.Storage.{Codec}
use community.Wire.Storage.{Codecs, commit}
use community.Wire.Supply.{
  validate_register_asset, check_register_asset, execute_register_asset, register_asset_as,
  validate_mint, check_mint, execute_mint, mint_as, open_account,
}
use community.Wire.Txs.{Tx, Kind, kind_of, RegisterAssetData, MintData}
use community.Wire.Txs.Validate.{check_mint_data}
use community.Wire.Unsigned.{execute_tx-unsigned}
use community.Wire.Types.{AssetRecord, SupplyRecord}

codec : BurnReadsAsMint env
codec = record {
  alike = λ raw d e.
      (mint_data, refl, ap (λ o. elim o as (λ _. ℤ) [ none ↦ pos 0 | some x ↦ x.amount ]) e);
}

abbrev state_1 : State
state_1 = (execute_raw env (pos 5) (1 ∷ []) (empty_state options)).1

abbrev state_2 : State
state_2 = (execute_raw env (pos 5) (2 ∷ []) state_1).1

started : Reached env (empty_state options)
unfolding new_state_with_options ◌==◌
started = start options (empty_state options) refl

accepts_asset : check_tx env (1 ∷ []) (empty_state options) ≡ 0
unfolding check_tx tx_validate validate_tx kind_of check_kind validate_kind validate_register_asset
    check_register_asset lookup ◌==◌
accepts_asset = refl

named : (d : RegisterAssetData) → some asset_data ≡ some d → NoColon d.asset_id
named d e =
    subst NoColon (ap (λ o. elim o as (λ _. Bytes) [ none ↦ [] | some x ↦ x.asset_id ]) e)
      gold-NoColon

registered : Reached env state_1
unfolding kind_of
registered =
    accepted (pos 5) (1 ∷ []) (record { type = 1; signature = 1 ∷ []; payload = 1 ∷ [] })
      (empty_state options) started refl accepts_asset named

accepts_mint : check_tx env (2 ∷ []) state_1 ≡ 0
unfolding check_tx tx_validate validate_tx kind_of check_kind validate_kind validate_mint check_mint
    check_mint_data lookup insert ◌==◌ execute_raw execute_tx execute_kind execute_register_asset
    register_asset_as
accepts_mint = refl

nothing_minted :
    (sup : SupplyRecord) → lookup gold state_1.supply ≡ some sup → pos_part sup.total_minted ≡ 0
unfolding lookup insert ◌==◌ execute_raw execute_tx kind_of execute_kind execute_register_asset
    register_asset_as
nothing_minted sup e =
    ap (λ o. elim o as (λ _. ℕ) [ none ↦ 0 | some x ↦ pos_part x.total_minted ]) (sym e)

fits : Conserving Kind.mint env (1 ∷ []) state_1
fits d e =
    let same = ap (λ o. elim o as (λ _. MintData) [ none ↦ mint_data | some x ↦ x ]) e in
    subst
      (λ x.
        (sup : SupplyRecord)
        → lookup x.asset_id state_1.supply ≡ some sup
        → pos_part sup.total_minted + pos_part x.amount < 2 ^ 63)
      same (λ sup found. omega (arith, nothing_minted sup found))

minted : Reached env state_2
unfolding kind_of
minted =
    accepted (pos 5) (2 ∷ []) (record { type = 2; signature = 1 ∷ []; payload = 1 ∷ [] }) state_1
      registered refl accepts_mint fits

abbrev silent : {V : Type 0} → Codec V
silent = record { encode = λ v. []; decode = λ raw. none }

abbrev codecs : Codecs
codecs = record {
  asset = silent;
  account = silent;
  supply = silent;
  transfer = silent;
  participant = silent;
  contract = silent;
  execution = silent;
  policy = silent;
  operator = silent;
  sku = silent;
  lot = silent;
  request = silent;
  settlement = silent;
  assessment = silent;
  enrollment = silent;
  action = silent;
  validator = silent;
}

abbrev state_3 : State
state_3 = (commit env.sha256 codecs state_2 []).1

abbrev gold_record : AssetRecord
gold_record = record {
  asset_id = gold;
  name = bytes "Gold";
  decimals = 2;
  total_supply = pos 100;
  created_at = pos 5;
}

gold_minted : lookup gold state_3.assets ≡ some gold_record
unfolding lookup insert ◌==◌ execute_raw execute_tx kind_of execute_kind execute_register_asset
    register_asset_as execute_mint mint_as open_account update_account update_supply done
    account_key commit ◌+ℤ◌ ◌-ℤ◌
gold_minted = refl

Reached-Conservation_example : Conservation gold gold_record state_3
Reached-Conservation_example =
    Reached-Conservation env gold gold_record state_3 codec (commits codecs [] state_2 minted)
      gold_minted

abbrev mint_tx : Tx
mint_tx = record { type = 2; signature = 1 ∷ []; payload = 1 ∷ [] }

Reached-executes_example :
    ((execute_raw env (pos 5) (2 ∷ []) state_1).0 ≢ none) × Reached env state_2
unfolding kind_of
Reached-executes_example =
    Reached-executes env (pos 5) (2 ∷ []) mint_tx state_1 codec registered refl accepts_mint fits

execute_tx-unsigned_example :
    (tx_validate env (record mint_tx { signature = 9 ∷ [] }) ≡ tx_validate env mint_tx)
    × (validate_tx env (record mint_tx { signature = 9 ∷ [] }) state_1
        ≡ validate_tx env mint_tx state_1)
    × (execute_tx env (pos 5) (record mint_tx { signature = 9 ∷ [] }) state_1
        ≡ execute_tx env (pos 5) mint_tx state_1)
execute_tx-unsigned_example = execute_tx-unsigned env (pos 5) (9 ∷ []) mint_tx state_1 refl refl
