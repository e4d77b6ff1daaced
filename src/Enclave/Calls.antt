-- ===== src/Enclave/Calls.antt =====
-- internal/extension/extension.go: an action of the extension as one of the calls of the order book
-- between two steps of the watcher.
use darkstop.Base.{◌≡◌, List}
use darkstop.Store.{Store}
use darkstop.Store.History.{Call, called_all}

-- The store after is what a run of calls leaves of the store before.
abbrev pub IsCalled : Store → Store → Type 0
IsCalled s t = (cs : List Call) × (t ≡ called_all cs s)
