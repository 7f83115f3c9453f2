-- ===== src/Client/Subscription/Handshake.antt =====
-- Which acknowledgement `Subscribe` of internal/herdrapi/client_unix.go accepts.
use herdr_tabline.Base.{
  ℕ, ◌≡◌, refl, arith, String, Option, none, some, List, ◌==◌, string_eq, Bool-cases, inl, inr,
}
use herdr_tabline.Base.Result.{ok, >>=-eq-ok, map_err}
use herdr_tabline.Client.{
  Bytes, Slice, ReadError, Response, Decoder, read_acknowledgement, acknowledgement_malformed,
  check_id, unmarshal_response, read_newline_frame, decode_response, context_error, raw_result,
}
use herdr_tabline.Client.Answers.{map_err-ok}
use herdr_tabline.Client.Subscription.{EventDecoder, typed, check_type, acknowledged}

module _ (D : Decoder) (E : EventDecoder) (max : ℕ) where
  -- An accepted acknowledgement, and what the stream reads on from.
  pub record Acknowledgement (id : String) (slices rest : List Slice) : Type 0 where
    pub line : Bytes
    pub read : read_newline_frame max slices ≡ ok (line, rest)
    pub response : Response
    pub decoded : unmarshal_response D line ≡ ok response
    pub own_id : response.id ≡ id
    pub no_error : response.error ≡ none
    pub raw : String
    pub result : response.result ≡ some raw
    pub started : E.type_of raw ≡ ok "subscription_started"

  decode_response-ok :
      (line : Bytes) (id : String) (response : Response)
      → decode_response D line id ≡ ok response
      → (unmarshal_response D line ≡ ok response) × (response.id ≡ id)
  unfolding decode_response
  decode_response-ok line id response h =
      let (parsed, parse, checked) = >>=-eq-ok (unmarshal_response D line) (check_id D id) h in
      elim (Bool-cases (parsed.id == id)) [
        | inl e ↦ (ground arith, ground arith)
        | inr e ↦ absurd (ground arith)
      ]

  raw_result-ok :
      (response : Response) (raw : Option String)
      → raw_result response ≡ ok raw
      → (response.error ≡ none) × (response.result ≡ raw)
  raw_result-ok response raw h = (ground arith, ground arith)

  typed-ok :
      (raw : Option String) (kind : String)
      → typed D E max raw ≡ ok kind
      → (text : String) × (raw ≡ some text) × (E.type_of text ≡ ok kind)
  typed-ok none kind h = cc
  typed-ok (some text) kind h =
      (text, refl, map_err-ok acknowledgement_malformed (E.type_of text) kind h)

  check_type-ok :
      (kind : String) (u : Unit {0})
      → check_type D E max kind ≡ ok u
      → kind ≡ "subscription_started"
  check_type-ok kind u h = elim (Bool-cases (kind == "subscription_started")) [
    | inl e ↦ ground arith
    | inr e ↦ absurd (ground arith)
  ]

  -- For every decoder, bound, context, request id and connection: where a subscription is taken for
  -- started, its first frame is within the bound, answers this request, carries no error, and has
  -- a result of type `subscription_started`; the stream reads on directly behind that frame.
  pub acknowledged-Acknowledgement :
      (ctx : Option String) (id : String) (slices rest : List Slice)
      → acknowledged D E max ctx id slices ≡ ok rest
      → Acknowledgement id slices rest
  unfolding acknowledged
  acknowledged-Acknowledgement ctx id slices rest h =
      let ((line, left), read, h1) =
        >>=-eq-ok
          (map_err (λ (e : ReadError). read_acknowledgement (context_error ctx e))
            (read_newline_frame max slices))
          _ h in
      let (response, decoded, h2) = >>=-eq-ok (decode_response D line id) _ h1 in
      let (raw, given, h3) = >>=-eq-ok (raw_result response) _ h2 in
      let (kind, known, h4) = >>=-eq-ok (typed D E max raw) _ h3 in
      let (u, checked, h5) = >>=-eq-ok (check_type D E max kind) _ h4 in
      let (parsed, own) = decode_response-ok line id response decoded in
      let (no_error, result) = raw_result-ok response raw given in
      let (text, there, type) = typed-ok raw kind known in
      let named = check_type-ok kind u checked in
      let same : left ≡ rest = ground arith in
      let whole = map_err-ok _ (read_newline_frame max slices) (line, left) read in
      record {
        line = line;
        read = ground arith;
        response = response;
        decoded = parsed;
        own_id = own;
        no_error = no_error;
        raw = text;
        result = ground arith;
        started = ground arith;
      }
