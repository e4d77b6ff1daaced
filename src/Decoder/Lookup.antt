-- ===== src/Decoder/Lookup.antt =====
-- pkg/decoder/registry.go: which decoder a lookup finds.
use darkstop.Base.{
  ℕ, ◌≡◌, ◌↔◌, refl, sym, ap, ◌∙◌, ◌⊎◌, inl, inr, Bool, true, false, not, ◌&&◌, Option, none, some,
  List, [], ◌∷◌, if◌then◌else◌, arith, Bool-cases,
}
use darkstop.Policy.{String, eq_string}
use darkstop.Policy.Equality.{eq_string_refl, eq_string_sound}
use darkstop.Enclave.Types.{Arguments}
use darkstop.Decoder.{
  RegistryKey, eq_key, Decoded, Decoder, Registry, decoder_at, without, register, or_fallback,
  lookup_decoder, DecodeRequest, Answer, bad_request, decoded, answer_decoded, answer_found,
  answer_bytes, answer_request, handle_decode, kind_message, kind_result, register_decoders,
  place_decoder, cancel_decoder, op_type_darkstop, op_command_place_order, op_command_cancel_order,
}

pub eq_key_refl : (k : RegistryKey) → eq_key k k ≡ true
unfolding eq_key
eq_key_refl k =
    ground (arith, eq_string_refl k.op_type, eq_string_refl k.op_command, eq_string_refl k.kind)

eq_key_sound : (j k : RegistryKey) → eq_key j k ≡ true → j ≡ k
unfolding eq_key
eq_key_sound j k h = ground (
  arith,
  eq_string_sound j.op_type k.op_type,
  eq_string_sound j.op_command k.op_command,
  eq_string_sound j.kind k.kind,
)

decoder_at-without :
    (k q : RegistryKey) (r : Registry)
    → decoder_at q (without k r) ≡ (if eq_key k q then none else decoder_at q r)
unfolding decoder_at without
decoder_at-without k q [] = ground arith
decoder_at-without k q ((j, dec) ∷ r) = elim (Bool-cases (eq_key j k)) [
  | inl e ↦
      let same : eq_key j q ≡ eq_key k q = ap (λ x. eq_key x q) (eq_key_sound j k e) in
      rw e (ground (arith, decoder_at-without k q r, same))
  | inr e ↦ elim (Bool-cases (eq_key j q)) [
    | inl f ↦ rw (e, f) (settled (other f e))
    | inr f ↦ rw (e, f) (decoder_at-without k q r)
  ]
]
  where
    other : eq_key j q ≡ true → eq_key j k ≡ false → eq_key k q ≡ false
    other f e = elim (Bool-cases (eq_key k q)) [
      | inl g ↦ cc (e, eq_key_sound j q f, eq_key_sound k q g, eq_key_refl q)
      | inr g ↦ g
    ]

    settled :
        eq_key k q ≡ false
        → ◌≡◌ {A = Option Decoder} (some dec) (if eq_key k q then none else some dec)
    settled g = rw g refl

-- After Register the key has the new decoder, and every other key has what it had.
pub decoder_at-register :
    (k q : RegistryKey) (dec : Decoder) (r : Registry)
    → decoder_at q (register k dec r) ≡ (if eq_key k q then some dec else decoder_at q r)
unfolding register decoder_at
decoder_at-register k q dec r = ground (arith, decoder_at-without k q r)

abbrev pub Decodes : Registry → (String → Option (List ℕ)) → DecodeRequest → Decoded → Type 0
Decodes r hex q v =
    ((q.kind ≡ kind_message) ⊎ (q.kind ≡ kind_result))
    × ((bytes : List ℕ) × (hex q.payload ≡ some bytes)
        × ((dec : Decoder) × (lookup_decoder q.op_type q.op_command q.kind r ≡ some dec)
            × (dec bytes ≡ some v)))

answered : (d : Option Decoded) (v : Decoded) → answer_decoded d ≡ decoded v → d ≡ some v
unfolding answer_decoded
answered none v e = cc
answered (some u) v e = ground arith

found_decodes :
    (bytes : List ℕ) (found : Option Decoder) (v : Decoded)
    → answer_found bytes found ≡ decoded v
    → (dec : Decoder) × (found ≡ some dec) × (dec bytes ≡ some v)
unfolding answer_found
found_decodes bytes none v e = cc
found_decodes bytes (some dec) v e = (dec, refl, answered (dec bytes) v e)

bytes_decode :
    (r : Registry) (q : DecodeRequest) (payload : Option (List ℕ)) (v : Decoded)
    → answer_bytes r q payload ≡ decoded v
    → (bytes : List ℕ) × (payload ≡ some bytes)
      × ((dec : Decoder) × (lookup_decoder q.op_type q.op_command q.kind r ≡ some dec)
          × (dec bytes ≡ some v))
unfolding answer_bytes
bytes_decode r q none v e = cc
bytes_decode r q (some bytes) v e =
    (bytes, refl, found_decodes bytes (lookup_decoder q.op_type q.op_command q.kind r) v e)

kinds :
    (kind : String)
    → (eq_string kind kind_message ≡ true) ⊎ (eq_string kind kind_result ≡ true)
    → (kind ≡ kind_message) ⊎ (kind ≡ kind_result)
kinds kind (inl m) = inl (eq_string_sound kind kind_message m)
kinds kind (inr m) = inr (eq_string_sound kind kind_result m)

kind_valid :
    (kind : String)
    → (kind ≡ kind_message) ⊎ (kind ≡ kind_result)
    → (not (eq_string kind kind_message) && not (eq_string kind kind_result)) ≡ false
kind_valid kind (inl e) = rw (e, eq_string_refl kind_message) refl
kind_valid kind (inr e) = rw (e, eq_string_refl kind_result) (ground arith)

guarded :
    (a b : Bool) (x : Answer) (v : Decoded)
    → (if not a && not b then bad_request else x) ≡ decoded v
    → ((a ≡ true) ⊎ (b ≡ true)) × (x ≡ decoded v)
guarded true b x v e = (inl refl, e)
guarded false true x v e = (inr refl, e)
guarded false false x v e = cc

request-Decodes :
    (r : Registry) (hex : String → Option (List ℕ)) (q : DecodeRequest) (v : Decoded)
    → answer_request r hex (some q) ≡ decoded v
    → Decodes r hex q v
unfolding answer_request
request-Decodes r hex q v e =
    let g = guarded (eq_string q.kind kind_message) (eq_string q.kind kind_result) _ v e in
    (kinds q.kind g.0, bytes_decode r q (hex q.payload) v g.1)

Decodes-answer :
    (r : Registry) (hex : String → Option (List ℕ)) (q : DecodeRequest) (v : Decoded)
    → Decodes r hex q v
    → answer_request r hex (some q) ≡ decoded v
unfolding answer_request answer_bytes answer_found answer_decoded
Decodes-answer r hex q v d =
    let bytes = d.1.0 in
    let found = d.1.2 in rw (kind_valid q.kind d.0, d.1.1, found.1, found.2) refl

-- handleDecode answers a request with a value exactly if its kind is message or result, its data is
-- hex, Lookup finds a decoder for it, and that decoder gives the value.
pub handle_decode_iff :
    (r : Registry) (hex : String → Option (List ℕ)) (q : DecodeRequest) (v : Decoded)
    → (handle_decode r hex (some q) ≡ decoded v) ↔ Decodes r hex q v
unfolding handle_decode
handle_decode_iff r hex q v = (request-Decodes r hex q v, Decodes-answer r hex q v)

-- The decoder by the kind: a message's own, and the JSON decoder for a result.
abbrev pub by_kind : String → Decoder → Decoder → Option Decoder
by_kind kind message json =
    if eq_string kind_message kind
    then some message
    else if eq_string kind_result kind
    then some json
    else none

commands_differ : eq_string op_command_cancel_order op_command_place_order ≡ false
unfolding eq_string
commands_differ = refl

kinds_differ : eq_string kind_result kind_message ≡ false
unfolding eq_string
kinds_differ = refl

no_command_place : eq_string op_command_place_order [] ≡ false
unfolding eq_string
no_command_place = refl

no_command_cancel : eq_string op_command_cancel_order [] ≡ false
unfolding eq_string
no_command_cancel = refl

exclusive : (a b c : String) → eq_string b a ≡ false → eq_string a c ≡ true → eq_string b c ≡ false
exclusive a b c h e = ap (λ x. eq_string b x) (sym (eq_string_sound a c e)) ∙ h

-- The registered decoder under a key, by the tests that Register's keys give.
abbrev table : Bool → Bool → Bool → String → Decoder → Decoder → Decoder → Option Decoder
table darkstop place cancel kind p c json =
    if not darkstop
    then none
    else if place
    then by_kind kind p json
    else if cancel
    then by_kind kind c json
    else none

registered :
    (place cancel : Arguments) (json : Decoder) (q : RegistryKey)
    → decoder_at q (register_decoders place cancel json [])
      ≡ table
          (eq_string op_type_darkstop q.op_type)
          (eq_string op_command_place_order q.op_command)
          (eq_string op_command_cancel_order q.op_command)
          q.kind
          (place_decoder place)
          (cancel_decoder cancel)
          json
unfolding register_decoders eq_key decoder_at
registered place cancel json q =
    let one_command : eq_string op_command_place_order q.op_command ≡ true
        → eq_string op_command_cancel_order q.op_command ≡ false =
      exclusive op_command_place_order op_command_cancel_order q.op_command commands_differ in
    let one_kind : eq_string kind_message q.kind ≡ true → eq_string kind_result q.kind ≡ false =
      exclusive kind_message kind_result q.kind kinds_differ in
    rw (decoder_at-register, decoder_at-register, decoder_at-register, decoder_at-register)
      (ground (arith, one_command, one_kind))

-- With the decoders of RegisterDecoders a lookup finds the place or the cancel decoder for a
-- message of that command and the JSON decoder for its result, if the operation type is DARKSTOP,
-- and nothing for any other key; the fallback to an empty command never applies.
pub lookup_decoder-register_decoders :
    (place cancel : Arguments) (json : Decoder) (op_type op_command kind : String)
    → lookup_decoder op_type op_command kind (register_decoders place cancel json []) ≡ (
        if not (eq_string op_type_darkstop op_type)
        then none
        else if eq_string op_command_place_order op_command
        then by_kind kind (place_decoder place) json
        else if eq_string op_command_cancel_order op_command
        then by_kind kind (cancel_decoder cancel) json
        else none)
unfolding lookup_decoder register_decoders or_fallback
lookup_decoder-register_decoders place cancel json t c k = ground (
  arith,
  registered place cancel json (record { op_type = t; op_command = c; kind = k }),
  registered place cancel json (record { op_type = t; op_command = []; kind = k }),
  no_command_place,
  no_command_cancel,
)
