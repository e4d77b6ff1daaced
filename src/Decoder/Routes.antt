-- ===== src/Decoder/Routes.antt =====
-- internal/typesserver/server.go: the routes of the types server, and what its registry promises. The
-- writing of JSON is left out.
use darkstop.Base.{
  ◌≡◌, ◌≢◌, refl, ap, ◌∙◌, ◌⊎◌, inl, inr, true, false, not, ◌&&◌, Option, none, some, ℕ, List, [],
  ◌∷◌, Bool-cases, arith,
}
use darkstop.Policy.{String, eq_string}
use darkstop.Decoder.{
  RegistryKey, eq_key, Decoded, Decoder, Registry, keys, decoder_at, or_fallback, lookup_decoder,
  DecodeRequest, Answer, not_found, answer_decoded, answer_found, answer_bytes, answer_request,
  handle_decode, kind_message, kind_result,
}
use darkstop.Decoder.Lookup.{eq_key_refl}

-- A request of the mux; a body that is no JSON is `none`.
pub data Route : Type 0 where
  post_decode : Option DecodeRequest → Route
  get_registry get_health other_route : Route

pub data Reply : Type 0 where
  replies : Answer → Reply
  lists : List RegistryKey → Reply
  healthy no_route : Reply

-- handleRegistry
unfoldable pub handle_registry : Registry → Reply
handle_registry r = lists (keys r)

-- The mux of New.
unfoldable pub serve : Registry → (String → Option (List ℕ)) → Route → Reply
serve r hex (post_decode body) = replies (handle_decode r hex body)
serve r hex get_registry = handle_registry r
serve r hex get_health = healthy
serve r hex other_route = no_route

abbrev pub IsListed : RegistryKey → List RegistryKey → Type 0
IsListed k [] = ⊥
IsListed k (j ∷ js) = (j ≡ k) ⊎ IsListed k js

abbrev pub Lists : RegistryKey → Reply → Type 0
Lists k (replies a) = ⊥
Lists k (lists ks) = IsListed k ks
Lists k healthy = ⊥
Lists k no_route = ⊥

decoder_at-IsListed : (k : RegistryKey) (r : Registry) → IsListed k (keys r) → decoder_at k r ≢ none
unfolding keys decoder_at
decoder_at-IsListed k [] h e = absurd h
decoder_at-IsListed k ((j, dec) ∷ r) (inl same) e =
    let here : eq_key j k ≡ true = ap (λ x. eq_key x k) same ∙ eq_key_refl k in cc (rw here at e)
decoder_at-IsListed k ((j, dec) ∷ r) (inr h) e = elim (Bool-cases (eq_key j k)) [
  | inl f ↦ cc (rw f at e)
  | inr f ↦ decoder_at-IsListed k r h (rw f at e)
]

found_lem :
    (key : RegistryKey) (r : Registry) (bytes : List ℕ) (o : Option Decoder)
    → o ≢ none
    → answer_found bytes (or_fallback key r o) ≢ not_found
unfolding or_fallback answer_found answer_decoded
found_lem key r bytes none h e = absurd (h refl)
found_lem key r bytes (some dec) h e = by_value (dec bytes) e
  where
    by_value : (v : Option Decoded) → answer_decoded v ≢ not_found
    by_value none e = cc
    by_value (some v) e = cc

replies_inj : (a b : Answer) → replies a ≡ replies b → a ≡ b
replies_inj a b h = cc

-- A key that GET /registry lists has a decoder: POST /decode never answers 404 for it, if the kind is one
-- of the two and the data is hex.
pub serve-Lists :
    (r : Registry) (hex : String → Option (List ℕ)) (q : DecodeRequest) (bytes : List ℕ)
    → Lists
        (record { op_type = q.op_type; op_command = q.op_command; kind = q.kind })
        (serve r hex get_registry)
    → (eq_string q.kind kind_message ≡ true) ⊎ (eq_string q.kind kind_result ≡ true)
    → hex q.payload ≡ some bytes
    → serve r hex (post_decode (some q)) ≢ replies not_found
unfolding serve handle_registry handle_decode answer_request answer_bytes lookup_decoder
serve-Lists r hex q bytes h kind data_ok e =
    let allowed : (not (eq_string q.kind kind_message) && not (eq_string q.kind kind_result))
        ≡ false =
      ground (arith, kind) in
    let gone : handle_decode r hex (some q) ≡ not_found =
      replies_inj (handle_decode r hex (some q)) not_found e in
    found_lem (record { op_type = q.op_type; op_command = []; kind = q.kind }) r bytes
      (decoder_at (record { op_type = q.op_type; op_command = q.op_command; kind = q.kind }) r)
      (decoder_at-IsListed _ r h) (rw (allowed, data_ok) at gone)
