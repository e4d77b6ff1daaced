-- ===== src/Tools/Mined.antt =====
-- tools/pkg/support/support.go: what CheckTx gives.
use darkstop.Base.{ℕ, ◌≡◌, ◌≢◌, ◌↔◌, refl, ==_iff, ◌++◌, arith}
use darkstop.Tools.{Result, ok, err, Receipt, Net, Run, waits, prefixed, continue, ◌>>=◌}
use darkstop.Tools.Support.{
  get_failing_message, fail_with_reason, checked_receipt, check_tx, failing_message,
}
use darkstop.Tools.Text.{text}
use darkstop.Policy.{String}

module _ {W L : Type 0} (net : Net W L) where
  checked_receipt_iff :
      (tx : ℕ) (s : Run W) (q r : Receipt L)
      → ((checked_receipt net tx q s).0 ≡ ok r) ↔ ((q ≡ r) × (q.status ≢ 0))
  unfolding checked_receipt fail_with_reason get_failing_message ◌>>=◌
  checked_receipt_iff tx s q r = ground arith

  -- The state after CheckTx is the one after the wait, whatever came of it.
  pub check_tx_state :
      (tx : ℕ) (s : Run W)
      → (check_tx net tx s).1 ≡ record s { world = (net.wait_mined tx s.world).1 }
  unfolding check_tx checked_receipt fail_with_reason get_failing_message waits ◌>>=◌
  check_tx_state tx s = ground arith

  from_wait :
      (tx : ℕ) (e : String) (s : Run W) (m : Result (Receipt L)) (r : Receipt L)
      → ((continue (prefixed e m) (checked_receipt net tx) s).0 ≡ ok r)
        ↔ ((m ≡ ok r) × (r.status ≢ 0))
  from_wait tx e s (ok q) r = ground (arith, checked_receipt_iff tx s q r)
  from_wait tx e s (err x) r = ground arith

  pub check_tx_iff :
      (tx : ℕ) (s : Run W) (r : Receipt L)
      → ((check_tx net tx s).0 ≡ ok r) ↔ (((net.wait_mined tx s.world).0 ≡ ok r) × (r.status ≢ 0))
  unfolding check_tx waits ◌>>=◌
  check_tx_iff tx s r = from_wait tx _ _ _ r

  failed_wait :
      (tx : ℕ) (e : String) (s : Run W) (m : Result (Receipt L)) (r : Receipt L) (from : ℕ)
      → m ≡ ok r
      → r.status ≡ 0
      → net.find_transaction tx s.world ≡ ok from
      → (continue (prefixed e m) (checked_receipt net tx) s).0
        ≡ err (
            text "error: Transaction fail: "
            ++ failing_message net.unpack_revert (net.replay tx from s.world))
  unfolding checked_receipt fail_with_reason get_failing_message ◌>>=◌
  failed_wait tx e s m r from h z f = rw h (rw ((==_iff r.status 0).1 z) (rw f refl))

  -- CheckTx gives the receipt of a transaction exactly if WaitMined gives it with a status that is not 0,
  -- and else an error. In either case nothing is sent, and no more is waited for.
  pub check_tx_lem :
      (tx : ℕ) (s : Run W) (r : Receipt L)
      → (((check_tx net tx s).0 ≡ ok r) ↔ (((net.wait_mined tx s.world).0 ≡ ok r) × (r.status ≢ 0)))
        × ((check_tx net tx s).1 ≡ record s { world = (net.wait_mined tx s.world).1 })
  check_tx_lem tx s r = (check_tx_iff tx s r, check_tx_state tx s)

  -- A transaction with status 0 becomes an error with the reason that its replay gives, if it is found.
  check_tx_reverted :
      (tx : ℕ) (s : Run W) (r : Receipt L) (from : ℕ)
      → (net.wait_mined tx s.world).0 ≡ ok r
      → r.status ≡ 0
      → net.find_transaction tx (net.wait_mined tx s.world).1 ≡ ok from
      → (check_tx net tx s).0
        ≡ err (
            text "error: Transaction fail: "
            ++ failing_message net.unpack_revert (net.replay tx from (net.wait_mined tx s.world).1))
  unfolding check_tx waits ◌>>=◌
  check_tx_reverted tx s r from h z f = failed_wait tx _ _ _ r from h z f
