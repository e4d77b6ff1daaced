-- ===== src/Tools/Diag.antt =====
-- tools/pkg/fccutils/diag.go, and replayAddTeeVersion of tools/cmd/audit-deploy/main.go: what is reported
-- of a call that the chain refuses. The contracts' ABIs and go-ethereum's FromHex are parameters.
pub mod Truthful
use darkstop.Base.{
  ℕ, zero, suc, ◌+◌, ◌≡◌, ◌≢◌, refl, inl, inr, ◌⊎◌, Bool, true, false, not, ◌&&◌, Option, none,
  some, List, [], ◌∷◌, ltb, ◌==◌, if◌then◌else◌, length, All, Bool-cases, Option-cases, arith,
}
use darkstop.Policy.{String, eq_string}
use darkstop.Tools.{ErrorData, no_data, hex_data, bytes_data, RpcError, Answer, gives, refuses}

-- The custom errors of a contract: each by its selector and its name, in the order in which the range over
-- the map meets them. `none` is an ABI that cannot be read.
abbrev pub Errors : Type 0
Errors = Option (List (List ℕ × String))

-- What is logged.
pub data Report : Type 0 where
  succeeded no_revert_data too_short : Report
  reason : String → Report
  custom : String → String → Report
  unknown : List ℕ → Report

-- extractRevertData of an error that is not nil; `from_hex` is common.FromHex
unfoldable pub extract_revert_data : (String → List ℕ) → ErrorData → List ℕ
extract_revert_data from_hex no_data = []
extract_revert_data from_hex (hex_data s) = from_hex s
extract_revert_data from_hex (bytes_data bs) = bs

-- revertData[:4]
abbrev pub selector_of : List ℕ → List ℕ
selector_of (a ∷ b ∷ c ∷ d ∷ rest) = a ∷ b ∷ c ∷ d ∷ []
selector_of bs = bs

-- The selector of Error(string): 08c379a0
abbrev pub error_selector : List ℕ
error_selector = 8 ∷ 195 ∷ 121 ∷ 160 ∷ []

unfoldable pub find_error : List ℕ → List (List ℕ × String) → Option String
find_error selector [] = none
find_error selector ((id, name) ∷ errors) =
    if eq_string id selector then some name else find_error selector errors

abbrev pub find_in : List ℕ → Errors → Option String
find_in selector none = none
find_in selector (some errors) = find_error selector errors

abbrev or_next : String → Option String → Report → Report
or_next contract (some name) next = custom contract name
or_next contract none next = next

-- The loop over the contracts.
unfoldable pub find_custom : List ℕ → List (String × Errors) → Report
find_custom selector [] = unknown selector
find_custom selector ((contract, errors) ∷ contracts) =
    or_next contract (find_in selector errors) (find_custom selector contracts)

abbrev pub unpacked_reason : Option String → Report → Report
unpacked_reason (some text) other = reason text
unpacked_reason none other = other

module _ (from_hex : String → List ℕ) (unpack : List ℕ → Option String) where
  -- Revert data of at least four bytes.
  unfoldable pub report_data : List (String × Errors) → List ℕ → Report
  report_data contracts bs =
      if eq_string (selector_of bs) error_selector
      then unpacked_reason (unpack bs) (find_custom (selector_of bs) contracts)
      else find_custom (selector_of bs) contracts

  unfoldable pub report_revert : List (String × Errors) → List ℕ → Report
  report_revert contracts bs =
      if length bs == 0
      then no_revert_data
      else if ltb (length bs) 4
      then too_short
      else report_data contracts bs

  -- diagAvailabilityCheckRevert, from the answer of its eth_call on
  unfoldable pub diag_availability_check_revert : List (String × Errors) → Answer (List ℕ) → Report
  diag_availability_check_revert contracts (gives res) = succeeded
  diag_availability_check_revert contracts (refuses e) =
      report_revert contracts (extract_revert_data from_hex e.error_data)

  -- replayAddTeeVersion, which does not tell data that is missing from data that is too short
  unfoldable pub replay_add_tee_version : List (String × Errors) → Answer (List ℕ) → Report
  replay_add_tee_version contracts (gives res) = succeeded
  replay_add_tee_version contracts (refuses e) =
      let bs = extract_revert_data from_hex e.error_data in
      if ltb (length bs) 4 then too_short else report_data contracts bs
