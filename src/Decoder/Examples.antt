-- ===== src/Decoder/Examples.antt =====
-- The decoder registry of pkg/decoder and handleDecode of internal/typesserver on concrete requests.
use darkstop.Base.{ℕ, ◌≡◌, ◌↔◌, refl, Option, none, some, List, [], ◌∷◌}
use darkstop.Policy.{String, eq_string}
use darkstop.Enclave.Types.{Arguments}
use darkstop.Decoder.{
  RegistryKey, eq_key, order_response, Decoder, Registry, decoder_at, register, handle_decode,
  DecodeRequest, decoded, kind_result, register_decoders, lookup_decoder, op_type_darkstop,
  op_command_place_order, status_code, or_fallback, without, answer_request, answer_bytes,
  answer_found, answer_decoded,
}
use darkstop.Decoder.Lookup.{Decodes, handle_decode_iff}

abbrev no_arguments : Arguments
no_arguments = record { unpack = λ bytes. none; pack = λ values. none }

abbrev json : Decoder
json bytes = some (order_response (49 ∷ []) (111 ∷ []))

abbrev place_result : RegistryKey
place_result = record {
  op_type = op_type_darkstop;
  op_command = op_command_place_order;
  kind = kind_result;
}

abbrev any_result : RegistryKey
any_result = record { op_type = op_type_darkstop; op_command = []; kind = kind_result }

abbrev registry : Registry
registry = register_decoders no_arguments no_arguments json []

abbrev request : DecodeRequest
request = record {
  op_type = op_type_darkstop;
  op_command = op_command_place_order;
  kind = kind_result;
  payload = 48 ∷ [];
}

abbrev hex : String → Option (List ℕ)
hex s = some s

handle_decode_iff_example :
    (handle_decode registry hex (some request) ≡ decoded (order_response (49 ∷ []) (111 ∷ [])))
    ↔ Decodes registry hex request (order_response (49 ∷ []) (111 ∷ []))
handle_decode_iff_example =
    handle_decode_iff registry hex request (order_response (49 ∷ []) (111 ∷ []))

decode_run :
    handle_decode registry hex (some request) ≡ decoded (order_response (49 ∷ []) (111 ∷ []))
unfolding handle_decode answer_request answer_bytes answer_found answer_decoded lookup_decoder
    or_fallback register_decoders register without decoder_at eq_key eq_string
decode_run = refl

-- The registry has no decoder for another operation.
unknown_run :
    status_code (handle_decode registry hex (some (record request { op_type = 71 ∷ [] }))) ≡ 404
unfolding handle_decode answer_request answer_bytes answer_found answer_decoded lookup_decoder
    or_fallback register_decoders register without decoder_at eq_key eq_string status_code
unknown_run = refl
