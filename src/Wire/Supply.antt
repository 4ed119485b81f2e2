-- ===== src/Wire/Supply.antt =====
-- embodiments/shywire/state/supply.go: registering an asset, minting and burning.
use community.Base.{true, false, none, some, [], ◌∷◌, is_some}
use community.Base.Exec.{Exec, ◌>>◌, modify}
use community.Base.Result.{Result, ok, err, check, reject}
use community.Data.Bytes.{Bytes, bytes}
use community.Data.GoMap.{lookup, insert}
use community.Data.Int64.{ℤ, pos, ltb_ℤ}
use community.Protocol.Events.{Event, text, event, attribute}
use community.Wire.Env.{Env}
use community.Wire.Errors.{
  Error, invalid_payload, asset_exists, unknown_asset, account_missing, insufficient_balance,
}
use community.Wire.State.{
  State, Handler, account_key, update_account, update_supply, credit, debit, touch, add_minted,
  add_burned, done,
}
use community.Wire.Txs.{Tx, RegisterAssetData, MintData, BurnData}
use community.Wire.Types.{AccountRecord}

unfoldable pub check_register_asset : RegisterAssetData → State → Result Error (Unit {0})
check_register_asset d s = reject (is_some (lookup d.asset_id s.assets)) asset_exists

unfoldable pub validate_register_asset : Env → Tx → State → Result Error (Unit {0})
unfolding check_register_asset
validate_register_asset env t s = elim (env.decode_register_asset t.payload) [
  | none ↦ err invalid_payload
  | some d ↦ check_register_asset d s
]

unfoldable pub register_asset_as : ℤ → RegisterAssetData → Handler
register_asset_as now d s = (
  ok (
      event (bytes "register_asset") (attribute (bytes "asset_id") (text d.asset_id) true ∷ [])
      ∷ []),
  record s {
    assets =
        insert d.asset_id
          (record {
            asset_id = d.asset_id;
            name = d.name;
            decimals = d.decimals;
            total_supply = pos 0;
            created_at = now;
          })
          s.assets;
    supply =
        insert d.asset_id
          (record {
            asset_id = d.asset_id;
            total_minted = pos 0;
            total_burned = pos 0;
            total_supply = pos 0;
            updated_at = now;
          })
          s.supply;
    dirty = true;
  },
)

unfoldable pub execute_register_asset : Env → ℤ → Tx → Handler
unfolding register_asset_as
execute_register_asset env now t s = elim (env.decode_register_asset t.payload) [
  | none ↦ (err invalid_payload, s)
  | some d ↦ register_asset_as now d s
]

unfoldable pub check_mint : MintData → State → Result Error (Unit {0})
check_mint d s = check (is_some (lookup d.asset_id s.assets)) unknown_asset

unfoldable pub validate_mint : Env → Tx → State → Result Error (Unit {0})
unfolding check_mint
validate_mint env t s = elim (env.decode_mint t.payload) [
  | none ↦ err invalid_payload
  | some d ↦ check_mint d s
]

-- an account without balance
abbrev pub new_account : Bytes → Bytes → ℤ → AccountRecord
new_account asset_id commitment height = record {
  account_commitment = commitment;
  asset_id = asset_id;
  balance = pos 0;
  disabled = false;
  frozen = false;
  updated_at = pos 0;
  height = height;
}

-- `if _, ok := s.accounts[key]; !ok { … }`
unfoldable pub open_account : Bytes → Bytes → State → State
open_account asset_id commitment s =
    let key = account_key asset_id commitment in
    elim (lookup key s.accounts) [
      | none ↦ record s {
        accounts = insert key (new_account asset_id commitment s.height) s.accounts;
      }
      | some a ↦ s
    ]

abbrev pub asset_event : Bytes → Bytes → Event
asset_event type asset_id = event type (attribute (bytes "asset_id") (text asset_id) true ∷ [])

unfoldable pub mint_as : ℤ → MintData → Handler
unfolding open_account update_account update_supply done
mint_as now d s =
    (do
      modify (open_account d.asset_id d.account_commitment)
      update_account (account_key d.asset_id d.account_commitment)
          (λ a. touch now s.height (credit d.amount a))
      update_supply d.asset_id (add_minted now d.amount)
      done (asset_event (bytes "mint") d.asset_id ∷ []))
      s

unfoldable pub execute_mint : Env → ℤ → Tx → Handler
unfolding mint_as
execute_mint env now t s = elim (env.decode_mint t.payload) [
  | none ↦ (err invalid_payload, s)
  | some d ↦ mint_as now d s
]

-- `acct.Balance < amount` on an account that may be missing
unfoldable pub check_funds : Bytes → ℤ → State → Result Error (Unit {0})
check_funds key amount s = elim (lookup key s.accounts) [
  | none ↦ err account_missing
  | some a ↦ reject (ltb_ℤ a.balance amount) insufficient_balance
]

unfoldable pub check_burn : BurnData → State → Result Error (Unit {0})
unfolding check_funds
check_burn d s = elim (lookup d.asset_id s.assets) [
  | none ↦ err unknown_asset
  | some _ ↦ check_funds (account_key d.asset_id d.account_commitment) d.amount s
]

unfoldable pub validate_burn : Env → Tx → State → Result Error (Unit {0})
unfolding check_burn
validate_burn env t s = elim (env.decode_burn t.payload) [
  | none ↦ err invalid_payload
  | some d ↦ check_burn d s
]

-- the writes that a burn, a settled redemption and a demurrage share
unfoldable pub burn_from : ℤ → Bytes → Bytes → ℤ → Exec Error State (Unit {0})
unfolding update_account update_supply
burn_from now asset_id commitment amount s =
    (do
      update_account (account_key asset_id commitment) (λ a. touch now s.height (debit amount a))
      update_supply asset_id (add_burned now amount))
      s

unfoldable pub burn_as : ℤ → BurnData → Handler
unfolding burn_from done
burn_as now d = do
  burn_from now d.asset_id d.account_commitment d.amount
  done (asset_event (bytes "burn") d.asset_id ∷ [])

unfoldable pub execute_burn : Env → ℤ → Tx → Handler
unfolding burn_as
execute_burn env now t s = elim (env.decode_burn t.payload) [
  | none ↦ (err invalid_payload, s)
  | some d ↦ burn_as now d s
]
