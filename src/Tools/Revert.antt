-- ===== src/Tools/Revert.antt =====
-- tools/pkg/fccutils/revert.go: the reason of a reverted call, from an error's data or by a replay.
use darkstop.Base.{
  ℕ, ◌≤◌, ◌≡◌, Option, none, some, List, [], ◌∷◌, ltb, if◌then◌else◌, length, arith,
}
use darkstop.Policy.{String}
use darkstop.Tools.{ErrorData, no_data, hex_data, bytes_data, RpcError, Answer, gives, refuses}
use darkstop.Tools.Text.{
  trim_0x, encode_hex, decode_hex, IsBytes, decode_hex-encode_hex, trim_0x-encode_hex, trim_0x_lem,
}

-- `unpack` is abi.UnpackRevert, where `none` is an error.
module _ (unpack : List ℕ → Option String) where
  abbrev or_raw : String → Option String → String
  or_raw hex (some reason) = reason
  or_raw hex none = 48 ∷ 120 ∷ hex

  abbrev decoded_reason : String → Option (List ℕ) → String
  decoded_reason hex none = []
  decoded_reason hex (some bs) = if ltb (length bs) 4 then [] else or_raw hex (unpack bs)

  -- decodeRevertHex
  unfoldable pub decode_revert_hex : String → String
  decode_revert_hex s = decoded_reason (trim_0x s) (decode_hex (trim_0x s))

  unfoldable pub decode_error_data : ErrorData → String
  decode_error_data no_data = []
  decode_error_data (hex_data s) = decode_revert_hex s
  decode_error_data (bytes_data bs) = []

  -- DecodeRevertReason of an error that is not nil
  abbrev pub decode_revert_reason : RpcError → String
  decode_revert_reason e = decode_error_data e.error_data

  abbrev or_message : String → String → String
  or_message message [] = message
  or_message message (c ∷ cs) = c ∷ cs

  -- SimulateAndDecodeRevert, from the answer of its eth_call on
  unfoldable pub simulated_reason : Answer (List ℕ) → String
  simulated_reason (refuses e) = or_message e.message (decode_revert_reason e)
  simulated_reason (gives result) =
      if ltb (length result) 4 then [] else decode_revert_hex (encode_hex result)

  -- What revert data of at least four bytes says: the reason, or the data itself in hexadecimal.
  abbrev pub reason_of : List ℕ → String
  reason_of bs = or_raw (encode_hex bs) (unpack bs)

  -- Of four or more bytes, printed in hexadecimal with or without 0x, decodeRevertHex gives the
  -- reason that go-ethereum unpacks of exactly these bytes, or else 0x and the same digits again;
  -- SimulateAndDecodeRevert gives the same for a call that returns the bytes.
  pub decode_revert_hex-encode_hex :
      (bs : List ℕ)
      → IsBytes bs
      → 4 ≤ length bs
      → (decode_revert_hex (encode_hex bs) ≡ reason_of bs)
        × (decode_revert_hex (48 ∷ 120 ∷ encode_hex bs) ≡ reason_of bs)
        × (simulated_reason (gives bs) ≡ reason_of bs)
  unfolding decode_revert_hex simulated_reason
  decode_revert_hex-encode_hex bs h n =
      rw (trim_0x-encode_hex bs h)
        (rw (trim_0x_lem (encode_hex bs)) (rw (decode_hex-encode_hex bs h) (ground arith)))
