-- ===== src/Wire/Ledger/Steps.antt =====
-- embodiments/shywire/state/state.go, `ExecuteTx` after `Validate` and `ValidateTx`: each type of
-- transaction in turn.
use community.Base.{◌≡◌, subst, refl}
use community.Base.Result.{ok}
use community.Data.Int64.{ℤ, pos, ◌<ℤ◌}
use community.Wire.AdverseAction.{execute_adverse_action, adverse_action_as}
use community.Wire.Contracts.Execution.{
  validate_execute_contract, execute_execute_contract, execute_contract_as, check_execute_contract,
}
use community.Wire.Custody.Demurrage.{
  check_demurrage, validate_demurrage, execute_demurrage, demurrage_as,
}
use community.Wire.Custody.Redemption.{
  check_settle, validate_settle_redemption, execute_settle_redemption, settle_as,
}
use community.Wire.Dispatch.{decoded}
use community.Wire.Env.{Env}
use community.Wire.Ledger.{IsBacked}
use community.Wire.Ledger.Executions.{execute_contract_as-Conserved}
use community.Wire.Ledger.Operations.{mint_as-Minted, burn_as-Burned}
use community.Wire.Ledger.Quiet.{after_decode}
use community.Wire.Ledger.Redemption.{demurrage_as-Burned}
use community.Wire.Ledger.Registration.{
  register_asset_as-IsBacked, register_account_as-IsBacked, adverse_action_as-IsBacked,
}
use community.Wire.Ledger.Settlement.{settle_as-IsBacked, check_settle-found}
use community.Wire.Ledger.Transfer.{transfer_as-Transferred}
use community.Wire.State.{State}
use community.Wire.Supply.{
  check_register_asset, check_mint, check_burn, validate_register_asset, execute_register_asset,
  register_asset_as, validate_mint, execute_mint, mint_as, validate_burn, execute_burn, burn_as,
}
use community.Wire.Transfers.{
  check_transfer, check_register_account, validate_transfer, execute_transfer, transfer_as,
  validate_register_account, execute_register_account, register_account_as,
}
use community.Wire.Txs.{Tx, Kind}
use community.Wire.Txs.Validate.{
  check_mint_data, check_transfer_data, check_settlement_data, check_demurrage_data,
}
use community.Wire.Ledger.Sound.{
  decoded_tests, opened_tests, BurnReadsAsMint, Conserving, check_mint_data-positive,
  check_transfer_data-positive, check_settlement_data-positive, check_demurrage_data-positive,
  Sound, invalid_is_no_panic, succeeds,
}

module _ (env : Env) (now : ℤ) (t : Tx) (s : State) (b : IsBacked s) where
  pub register_asset_step :
      validate_register_asset env t s ≡ ok tt
      → Conserving Kind.register_asset env t.payload s
      → Sound (execute_register_asset env now t s)
  unfolding validate_register_asset execute_register_asset
  register_asset_step h c =
      let o = env.decode_register_asset t.payload in
      after_decode Sound o (register_asset_as now) s (invalid_is_no_panic, b)
        (λ d e. succeeds (register_asset_as now d s) (unfold register_asset_as in refl) (
          register_asset_as-IsBacked now d s b
            (opened_tests o (λ x. check_register_asset x s) d h e) (c d e)))

  pub mint_step :
      decoded (env.decode_mint t.payload) check_mint_data ≡ ok tt
      → validate_mint env t s ≡ ok tt
      → Conserving Kind.mint env t.payload s
      → Sound (execute_mint env now t s)
  unfolding validate_mint execute_mint
  mint_step h h' c =
      let o = env.decode_mint t.payload in
      after_decode Sound o (mint_as now) s (invalid_is_no_panic, b)
        (λ d e.
          let done =
            mint_as-Minted now d s b (opened_tests o (λ x. check_mint x s) d h' e)
              (check_mint_data-positive d (decoded_tests o check_mint_data d h e)) (c d e) in
          succeeds (mint_as now d s) done.0 done.1.backed)

  pub burn_step :
      BurnReadsAsMint env
      → decoded (env.decode_mint t.payload) check_mint_data ≡ ok tt
      → validate_burn env t s ≡ ok tt
      → Sound (execute_burn env now t s)
  unfolding validate_burn execute_burn
  burn_step codec h h' =
      let o = env.decode_burn t.payload in
      after_decode Sound o (burn_as now) s (invalid_is_no_panic, b)
        (λ d e.
          let (d', e', same) = codec.alike t.payload d e in
          let done = burn_as-Burned now d s b (opened_tests o (λ x. check_burn x s) d h' e) (
            subst (λ z. pos 0 <ℤ z) same
              (check_mint_data-positive d'
                (decoded_tests (env.decode_mint t.payload) check_mint_data d' h e'))) in
          succeeds (burn_as now d s) done.0 done.1.backed)

  pub transfer_step :
      decoded (env.decode_transfer t.payload) check_transfer_data ≡ ok tt
      → validate_transfer env t s ≡ ok tt
      → Sound (execute_transfer env now t s)
  unfolding validate_transfer execute_transfer
  transfer_step h h' =
      let o = env.decode_transfer t.payload in
      after_decode Sound o (transfer_as env now) s (invalid_is_no_panic, b)
        (λ d e.
          let done =
            transfer_as-Transferred env now d s b (opened_tests o (λ x. check_transfer x s) d h' e)
              (check_transfer_data-positive d (decoded_tests o check_transfer_data d h e)) in
          succeeds (transfer_as env now d s) done.0 done.1.backed)

  pub register_account_step :
      validate_register_account env t s ≡ ok tt → Sound (execute_register_account env t s)
  unfolding validate_register_account execute_register_account
  register_account_step h =
      let o = env.decode_register_account t.payload in
      after_decode Sound o register_account_as s (invalid_is_no_panic, b)
        (λ d e. succeeds (register_account_as d s) (unfold register_account_as in refl) (
          register_account_as-IsBacked env d s b
            (opened_tests o (λ x. check_register_account env x s) d h e)))

  pub execute_contract_step :
      validate_execute_contract env t s ≡ ok tt
      → Conserving Kind.execute_contract env t.payload s
      → Sound (execute_execute_contract env now t s)
  unfolding validate_execute_contract execute_execute_contract
  execute_contract_step h c =
      let o = env.decode_execute_contract t.payload in
      after_decode Sound o (execute_contract_as env now) s (invalid_is_no_panic, b)
        (λ d e.
          let done =
            execute_contract_as-Conserved env now d s b (c d e).0
              (opened_tests o (λ x. check_execute_contract x s) d h e) (c d e).1 in
          succeeds (execute_contract_as env now d s) done.0 done.1.backed)

  pub settle_step :
      decoded (env.decode_settle_custody_redemption t.payload) check_settlement_data ≡ ok tt
      → validate_settle_redemption env t s ≡ ok tt
      → Conserving Kind.settle_redemption env t.payload s
      → Sound (execute_settle_redemption env now t s)
  unfolding validate_settle_redemption execute_settle_redemption
  settle_step h h' c =
      let o = env.decode_settle_custody_redemption t.payload in
      after_decode Sound o (settle_as now) s (invalid_is_no_panic, b)
        (λ d e.
          let tests = opened_tests o (λ x. check_settle x s) d h' e in
          let (r, found) = check_settle-found d s tests in
          let done =
            settle_as-IsBacked now d r s b found (c d r e found) tests
              (check_settlement_data-positive d (decoded_tests o check_settlement_data d h e)) in
          succeeds (settle_as now d s) done.0 done.1)

  pub demurrage_step :
      decoded (env.decode_apply_custody_demurrage t.payload) check_demurrage_data ≡ ok tt
      → validate_demurrage env t s ≡ ok tt
      → Conserving Kind.apply_demurrage env t.payload s
      → Sound (execute_demurrage env now t s)
  unfolding validate_demurrage execute_demurrage
  demurrage_step h h' c =
      let o = env.decode_apply_custody_demurrage t.payload in
      after_decode Sound o (demurrage_as now) s (invalid_is_no_panic, b)
        (λ d e.
          let done =
            demurrage_as-Burned now d s b (c d e) (opened_tests o (λ x. check_demurrage x s) d h' e)
              (check_demurrage_data-positive d (decoded_tests o check_demurrage_data d h e)) in
          succeeds (demurrage_as now d s) done.0 done.1.backed)

  pub adverse_action_step :
      Conserving Kind.adverse_action env t.payload s → Sound (execute_adverse_action env now t s)
  unfolding execute_adverse_action
  adverse_action_step c =
      after_decode Sound (env.decode_adverse_action t.payload) (adverse_action_as now) s
        (invalid_is_no_panic, b)
        (λ d e.
          succeeds (adverse_action_as now d s) (unfold adverse_action_as in refl)
            (adverse_action_as-IsBacked now d s b (c d e)))
