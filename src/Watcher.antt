-- ===== src/Watcher.antt =====
-- internal/extension/watcher.go: the loop that samples the FTSO price and settles orders.
mod Examples
pub mod State
pub mod Exec
pub mod Chain
pub mod Nonce
pub mod Settle
pub mod Reconcile
pub mod Tick
pub mod Triples
pub mod Nonces
pub mod Serial
pub mod InFlight
pub mod Reconciled
pub mod OneAtATime
pub mod Safety
pub mod Broadcasts
pub mod Logic
pub mod Bumps
pub mod Ages
pub mod Evidence
pub mod Unconfirmed
pub mod Unmarked
