-- ===== src/Watcher/Chain.antt =====
-- internal/extension/watcher.go: what the watcher reads from the chain (currentPrice, ftsoAddress,
-- onChainOrderStatus, ensureChainID), and normalizePrice.
use darkstop.Base.{
  Option, none, some, ℕ, suc, ◌+◌, ◌-◌, ◌^◌, not, none, some, leb, ◌==◌, if◌then◌else◌,
}
use darkstop.Base.Big.{ℤ, pos, negsuc, mul_ℕ, div_ℕ}
use darkstop.Watcher.State.{Env, payout_decimals}
use darkstop.Watcher.Exec.{Exec, pure, lift, of_type, gets, modify, rpc, ◌>>=◌, ◌>>◌}

-- normalizePrice: `shift` is payoutDecimals - decimals
unfoldable pub normalize_price : ℤ → ℤ → ℤ
normalize_price value (pos d) =
    if leb d payout_decimals
    then mul_ℕ value (10 ^ (payout_decimals - d))
    else div_ℕ value (10 ^ (d - payout_decimals))
normalize_price value (negsuc n) = mul_ℕ value (10 ^ (payout_decimals + suc n))

module _ (env : Env) where
  -- The address of FtsoV2, read from the vault once.
  unfoldable pub ftso_address : Exec ℕ
  ftso_address = do
    known ← gets (λ w. w.ftso)
    if not (known == 0) then pure known else do
      input ← lift env.pack_ftso
      output ← rpc env (λ k. env.call_contract k env.vault input)
      value ← lift (env.unpack_ftso output)
      addr ← of_type value
      modify (λ w. record w { ftso = addr })
      pure addr

  unfoldable pub current_price : Exec (ℤ × ℕ)
  current_price = do
    ftso ← ftso_address
    input ← lift env.pack_get_feed
    output ← rpc env (λ k. env.call_contract k ftso input)
    values ← lift (env.unpack_feed output)
    value ← of_type values.0
    decimals ← of_type values.1
    ts ← of_type values.2
    pure (normalize_price value decimals, ts)

  unfoldable pub on_chain_order_status : ℕ → Exec ℕ
  on_chain_order_status id = do
    input ← lift (env.pack_orders id)
    output ← rpc env (λ k. env.call_contract k env.vault input)
    value ← lift (env.unpack_orders output)
    of_type value

  unfoldable pub chain_id_or_fetched : Option ℤ → Exec (Unit {0})
  chain_id_or_fetched (some id) = pure tt
  chain_id_or_fetched none = do
    id ← rpc env env.fetch_chain_id
    modify (λ w. record w { chain_id = some id })

  unfoldable pub ensure_chain_id : Exec (Unit {0})
  ensure_chain_id = do known ← gets (λ w. w.chain_id); chain_id_or_fetched known
