-- ===== src/Enclave/Types.antt =====
-- pkg/types/types.go: the requests of the vault, and their strict decoding. go-ethereum's abi package
-- is a parameter: a value that it unpacks is an integer, a list of bytes, or of another type.
use darkstop.Base.{ℕ, Option, none, some, List, ◌∷◌, if◌then◌else◌}
use darkstop.Base.Big.{ℤ}
use darkstop.Policy.{eq_string}

pub data AbiValue : Type 0 where
  integer : ℤ → AbiValue
  bytes : List ℕ → AbiValue
  other_type : AbiValue

-- abi.Arguments: Unpack and Pack, where `none` is an error.
pub record Arguments : Type 0 where
  pub unpack : List ℕ → Option (List AbiValue)
  pub pack : List AbiValue → Option (List ℕ)

pub record PlaceOrderRequest : Type 0 where
  pub order_id : ℤ
  pub ciphertext : List ℕ

pub record CancelOrderRequest : Type 0 where
  pub order_id : ℤ

-- The length is compared, then each byte.
unfoldable pub check_repacked : List AbiValue → List ℕ → Option (List ℕ) → Option (List AbiValue)
check_repacked values input none = none
check_repacked values input (some repacked) = if eq_string repacked input then some values else none

unfoldable pub repack : Arguments → List ℕ → Option (List AbiValue) → Option (List AbiValue)
repack args input none = none
repack args input (some values) = check_repacked values input (args.pack values)

unfoldable pub unpack_strict : Arguments → List ℕ → Option (List AbiValue)
unpack_strict args input = repack args input (args.unpack input)

-- The type assertions on the values; an index out of range does not occur, as the arguments have as
-- many values as types.
unfoldable pub place_order_request : Option (List AbiValue) → Option PlaceOrderRequest
place_order_request (some (integer id ∷ bytes c ∷ _)) =
    some (record { order_id = id; ciphertext = c })
place_order_request _ = none

unfoldable pub cancel_order_request : Option (List AbiValue) → Option CancelOrderRequest
cancel_order_request (some (integer id ∷ _)) = some (record { order_id = id })
cancel_order_request _ = none

unfoldable pub decode_place_order : Arguments → List ℕ → Option PlaceOrderRequest
decode_place_order args input = place_order_request (unpack_strict args input)

unfoldable pub decode_cancel_order : Arguments → List ℕ → Option CancelOrderRequest
decode_cancel_order args input = cancel_order_request (unpack_strict args input)
