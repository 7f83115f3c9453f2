-- ===== src/Client/Answers.antt =====
-- Which answers internal/herdrapi/client_unix.go accepts.
use herdr_tabline.Base.{
  ℕ, ◌≡◌, inl, inr, refl, sym, String, Option, none, some, List, [], ◌∷◌, arith,
}
use herdr_tabline.Base.{◌==◌, string_eq, Bool-cases}
use herdr_tabline.Base.Dict.{Dict, lookup}
use herdr_tabline.Base.Result.{Result, ok, err, ◌>>=◌, map_err, >>=-eq-ok}
use herdr_tabline.Client.{
  Bytes, Slice, ReadError, eof, read_response, read_frame_bytes, newline_frame, read_newline_frame,
  Response, Decoder, ClientError, malformed, present_error, id_of, outcome_of, unmarshal_members,
  unmarshal_response, check_id, decode_response, context_error, connection_end,
  require_connection_end, raw_result, receive,
}
use herdr_tabline.Client.Frames.{IsFrame, read_frame_bytes-IsFrame}

-- Exactly one outcome: a result, or an error that is not an explicit null.
pub data HasOutcome (D : Decoder) (members : Dict String) (response : Response) : Type 0 where
  succeeded :
      {raw : String}
      → lookup "result" members ≡ some raw
      → present_error (lookup "error" members) ≡ none
      → response.result ≡ some raw
      → response.error ≡ none
      → HasOutcome D members response
  failed_with :
      {raw : String}
      → lookup "result" members ≡ none
      → present_error (lookup "error" members) ≡ some raw
      → response.result ≡ none
      → D.failure raw ≡ ok response.error
      → HasOutcome D members response

pub newline_frame-ok :
    (bytes : Bytes) (failure : Option ReadError) (rest : List Slice) (line : Bytes)
    (after : List Slice)
    → newline_frame bytes failure rest ≡ ok (line, after)
    → (failure ≡ none) × (bytes ≡ line) × (rest ≡ after)
newline_frame-ok bytes none rest line after h = (refl, ground arith, ground arith)
newline_frame-ok (b ∷ bytes) (some e) rest line after h = absurd (ground arith)
newline_frame-ok [] (some e) rest line after h = absurd (ground arith)

pub map_err-ok :
    {E F A : Type 0} (f : E → F) (r : Result E A) (a : A) → map_err f r ≡ ok a → r ≡ ok a
map_err-ok f (ok b) a h = ground arith
map_err-ok f (err e) a h = cc

module _ (D : Decoder) where
  outcome_of-HasOutcome :
      (members : Dict String) (id : String) (result failure : Option String) (response : Response)
      → lookup "result" members ≡ result
      → present_error (lookup "error" members) ≡ failure
      → outcome_of D id result failure ≡ ok response
      → HasOutcome D members response
  outcome_of-HasOutcome members id (some result) (some failure) response p q h = cc
  outcome_of-HasOutcome members id none none response p q h = cc
  outcome_of-HasOutcome members id (some result) none response p q h =
      succeeded p q (ground arith) (ground arith)
  outcome_of-HasOutcome members id none (some failure) response p q h =
      failed_with p q (ground arith) (ground arith)

  -- For every decoder and members of an answer: an answer that is accepted has exactly one outcome. It
  -- has a result member and no error but an explicit null, and the response holds the result; or it
  -- has no result member and an error, and the response holds the decoded error.
  pub unmarshal_members-HasOutcome :
      (members : Dict String) (response : Response)
      → unmarshal_members D members ≡ ok response
      → HasOutcome D members response
  unfolding unmarshal_members
  unmarshal_members-HasOutcome members response h =
      let (id, _, rest) =
        >>=-eq-ok (id_of D (lookup "id" members))
          (λ (id : String).
            outcome_of D id (lookup "result" members) (present_error (lookup "error" members)))
          h in
      outcome_of-HasOutcome members id _ _ response refl refl rest

  -- An accepted answer, from the slices of its frame to the result.
  pub record Answer (max : ℕ) (id : String) (slices : List Slice) (out : Option String)
      : Type 0 where
    pub line : Bytes
    pub rest : List Slice
    pub frame : IsFrame max slices line rest
    pub members : Dict String
    pub decoded : D.members line ≡ ok members
    pub response : Response
    pub outcome : HasOutcome D members response
    pub own_id : response.id ≡ id
    pub no_error : response.error ≡ none
    pub result : response.result ≡ out
    pub nothing_behind : (read_frame_bytes max rest).bytes ≡ []
    pub at_end : (read_frame_bytes max rest).failure ≡ some eof

  connection_end-ok :
      (ctx : Option String) (bytes : Bytes) (failure : Option ReadError)
      → connection_end ctx bytes failure ≡ ok tt
      → (bytes ≡ []) × (failure ≡ some eof)
  connection_end-ok ctx (b ∷ bytes) failure h = cc
  connection_end-ok ctx [] none h = cc
  connection_end-ok ctx [] (some e) h = (refl, ground arith)

  abbrev closing : ℕ → Option String → List Slice → Response → Result ClientError (Option String)
  closing max ctx rest response =
      require_connection_end max ctx rest >>= λ (closed : Unit {0}). raw_result response

  -- For every decoder, bound, context, request id and stream: where the reading of an answer succeeds, the
  -- stream begins with one complete frame within the bound, that decodes to an answer with exactly
  -- one outcome, the id of the request and no error; the caller gets its raw result; and behind the
  -- frame there is nothing but the end of the stream.
  pub receive-Answer :
      (max : ℕ) (ctx : Option String) (id : String) (slices : List Slice) (out : Option String)
      → receive D max ctx id slices ≡ ok out
      → Answer max id slices out
  unfolding receive read_newline_frame decode_response unmarshal_response require_connection_end
  receive-Answer max ctx id slices out h =
      let ((line, rest), read, later) =
        >>=-eq-ok
          (map_err (λ (e : ReadError). read_response (context_error ctx e))
            (read_newline_frame max slices))
          (λ (p : Bytes × List Slice). decode_response D p.0 id >>= closing max ctx p.1) h in
      let (response, decoded, end) =
        >>=-eq-ok (decode_response D line id) (closing max ctx rest) later in
      let (closed, ended, last) =
        >>=-eq-ok (require_connection_end max ctx rest) (λ (u : Unit {0}). raw_result response)
          end in
      let (parsed, parse, checked) =
        >>=-eq-ok (unmarshal_response D line) (check_id D id) decoded in
      let (members, raw, unmarshalled) =
        >>=-eq-ok (map_err malformed (D.members line)) (unmarshal_members D) parse in
      let (whole, same_line, same_rest) =
        newline_frame-ok _ _ _ line rest
          (map_err-ok _ (read_newline_frame max slices) (line, rest) read) in
      let (nothing, at_end) = connection_end-ok ctx _ _ ended in
      let own : (parsed ≡ response) × (response.id ≡ id) = elim (Bool-cases (parsed.id == id)) [
        | inl e ↦ (ground arith, ground arith)
        | inr e ↦ absurd (ground arith)
      ] in
      record {
        line = line;
        rest = rest;
        frame = rw (sym same_line, sym same_rest) (read_frame_bytes-IsFrame max slices whole);
        members = members;
        decoded = map_err-ok malformed (D.members line) members raw;
        response = response;
        outcome = unmarshal_members-HasOutcome members response (rw (sym own.0) unmarshalled);
        own_id = own.1;
        no_error = ground arith;
        result = ground arith;
        nothing_behind = nothing;
        at_end = at_end;
      }
