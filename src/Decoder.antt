-- ===== src/Decoder.antt =====
-- pkg/decoder/registry.go, RegisterDecoders of pkg/types/register.go, and handleDecode of
-- internal/typesserver/server.go. A decoder is a function that may fail. The JSON of a request and hexutil
-- are parameters.
mod Examples
pub mod Lookup
pub mod Routes
use darkstop.Base.{
  ℕ, Bool, true, false, not, ◌&&◌, ◌||◌, Option, none, some, List, [], ◌∷◌, ◌==◌, if◌then◌else◌,
}
use darkstop.Policy.{String, eq_string}
use darkstop.Enclave.Types.{
  Arguments, PlaceOrderRequest, CancelOrderRequest, decode_place_order, decode_cancel_order,
}

-- A DataKind is any string; these are the two that are named.
abbrev pub kind_message : String
kind_message = 109 ∷ 101 ∷ 115 ∷ 115 ∷ 97 ∷ 103 ∷ 101 ∷ []

-- result
abbrev pub kind_result : String
kind_result = 114 ∷ 101 ∷ 115 ∷ 117 ∷ 108 ∷ 116 ∷ []

pub record RegistryKey : Type 0 where
  pub op_type : String
  pub op_command : String
  pub kind : String

unfoldable pub eq_key : RegistryKey → RegistryKey → Bool
eq_key j k =
    eq_string j.op_type k.op_type && eq_string j.op_command k.op_command && eq_string j.kind k.kind

-- What a decoder gives: the JSON of a result is a value of the JSON decoder, which is a parameter.
pub data Decoded : Type 0 where
  place_order : PlaceOrderRequest → Decoded
  cancel_order : CancelOrderRequest → Decoded
  order_response : String → String → Decoded

abbrev pub Decoder : Type 0
Decoder = List ℕ → Option Decoded

abbrev pub Registry : Type 0
Registry = List (RegistryKey × Decoder)

-- r.decoders[key]
unfoldable pub decoder_at : RegistryKey → Registry → Option Decoder
decoder_at key [] = none
decoder_at key ((k, dec) ∷ r) = if eq_key k key then some dec else decoder_at key r

-- The entries under the other keys.
unfoldable pub without : RegistryKey → Registry → Registry
without key [] = []
without key ((k, dec) ∷ r) =
    let rest = without key r in if eq_key k key then rest else (k, dec) ∷ rest

-- Register
unfoldable pub register : RegistryKey → Decoder → Registry → Registry
register key dec r = (key, dec) ∷ without key r

unfoldable pub or_fallback : RegistryKey → Registry → Option Decoder → Option Decoder
or_fallback fallback r (some dec) = some dec
or_fallback fallback r none = decoder_at fallback r

-- Lookup
unfoldable pub lookup_decoder : String → String → String → Registry → Option Decoder
lookup_decoder op_type op_command kind r =
    or_fallback (record { op_type = op_type; op_command = []; kind = kind }) r
      (decoder_at (record { op_type = op_type; op_command = op_command; kind = kind }) r)

-- Keys
unfoldable pub keys : Registry → List RegistryKey
keys [] = []
keys ((k, dec) ∷ r) = k ∷ keys r

-- "DARKSTOP"
abbrev pub op_type_darkstop : String
op_type_darkstop = 68 ∷ 65 ∷ 82 ∷ 75 ∷ 83 ∷ 84 ∷ 79 ∷ 80 ∷ []

-- "PLACE_ORDER"
abbrev pub op_command_place_order : String
op_command_place_order = 80 ∷ 76 ∷ 65 ∷ 67 ∷ 69 ∷ 95 ∷ 79 ∷ 82 ∷ 68 ∷ 69 ∷ 82 ∷ []

-- "CANCEL_ORDER"
abbrev pub op_command_cancel_order : String
op_command_cancel_order = 67 ∷ 65 ∷ 78 ∷ 67 ∷ 69 ∷ 76 ∷ 95 ∷ 79 ∷ 82 ∷ 68 ∷ 69 ∷ 82 ∷ []

abbrev as_place_order : Option PlaceOrderRequest → Option Decoded
as_place_order none = none
as_place_order (some r) = some (place_order r)

abbrev as_cancel_order : Option CancelOrderRequest → Option Decoded
as_cancel_order none = none
as_cancel_order (some r) = some (cancel_order r)

-- The decoders that the extension registers: for messages, and for results (JSON).
abbrev pub place_decoder : Arguments → Decoder
place_decoder args bytes = as_place_order (decode_place_order args bytes)

abbrev pub cancel_decoder : Arguments → Decoder
cancel_decoder args bytes = as_cancel_order (decode_cancel_order args bytes)

abbrev pub key_of : String → String → RegistryKey
key_of op_command kind = record { op_type = op_type_darkstop; op_command = op_command; kind = kind }

-- RegisterDecoders
unfoldable pub register_decoders : Arguments → Arguments → Decoder → Registry → Registry
register_decoders place cancel json r = register (key_of op_command_cancel_order kind_result) json (
    register (key_of op_command_cancel_order kind_message) (cancel_decoder cancel) (
      register (key_of op_command_place_order kind_result) json
        (register (key_of op_command_place_order kind_message) (place_decoder place) r)))

-- decodeRequest, with the hex text of the data
pub record DecodeRequest : Type 0 where
  pub op_type : String
  pub op_command : String
  pub kind : String
  pub payload : String

-- The status code, and the value of a success.
pub data Answer : Type 0 where
  bad_request not_found unprocessable : Answer
  decoded : Decoded → Answer

unfoldable pub answer_decoded : Option Decoded → Answer
answer_decoded none = unprocessable
answer_decoded (some v) = decoded v

unfoldable pub answer_found : List ℕ → Option Decoder → Answer
answer_found bytes none = not_found
answer_found bytes (some dec) = answer_decoded (dec bytes)

unfoldable pub answer_bytes : Registry → DecodeRequest → Option (List ℕ) → Answer
answer_bytes r q none = bad_request
answer_bytes r q (some bytes) = answer_found bytes (lookup_decoder q.op_type q.op_command q.kind r)

unfoldable pub answer_request :
    Registry → (String → Option (List ℕ)) → Option DecodeRequest → Answer
answer_request r hex none = bad_request
answer_request r hex (some q) =
    if not (eq_string q.kind kind_message) && not (eq_string q.kind kind_result)
    then bad_request
    else answer_bytes r q (hex q.payload)

-- handleDecode, by what the decoder of the body gives
unfoldable pub handle_decode : Registry → (String → Option (List ℕ)) → Option DecodeRequest → Answer
handle_decode r hex body = answer_request r hex body

unfoldable pub status_code : Answer → ℕ
status_code bad_request = 400
status_code not_found = 404
status_code unprocessable = 422
status_code (decoded v) = 200
