-- ===== src/Client.antt =====
-- internal/herdrapi/client_unix.go: how the answer to a call is read off the connection and decoded.
-- A `bufio.Reader` is the list of what its `ReadSlice('\n')` returns; when the list ends, the
-- stream is at its end. The decoding of JSON is a parameter; the text of a raw member stands for
-- its bytes. What precedes the answer is in Calls.

pub mod Frames
pub mod Answers
pub mod Subscription
pub mod Lifecycle
pub mod Calls
use herdr_tabline.Base.{
  ℕ, ◌+◌, ◌*◌, String, Bool, true, false, not, ◌&&◌, Option, none, some, List, [], ◌∷◌, ◌++◌,
  length,
}
use herdr_tabline.Base.{◌==◌, string_eq, if◌then◌else◌, ltb, leb}
use herdr_tabline.Base.Dict.{Dict, lookup}
use herdr_tabline.Base.Text.{trim_space}
use herdr_tabline.Base.Result.{Result, ok, err, ◌>>=◌, map_err}

-- 8 bits each
abbrev pub Bytes : Type 0
Bytes = List ℕ

-- How a `ReadSlice` ends: with the delimiter, with `bufio.ErrBufferFull`, or with another error.
pub data SliceEnd : Type 0 where
  terminated buffer_full end_of_stream : SliceEnd
  broken : String → SliceEnd

pub record Slice : Type 0 where
  pub chunk : Bytes
  pub ends : SliceEnd

pub data ReadError : Type 0 where
  eof too_large missing_newline : ReadError
  failed context_ended : String → ReadError

-- The bytes and the error, both of which the source returns, and the slices not read.
pub record Frame : Type 0 where
  pub bytes : Bytes
  pub failure : Option ReadError
  pub rest : List Slice

abbrev pub refused : List Slice → Frame
refused rest = record { bytes = []; failure = some too_large; rest = rest }

-- How a slice that is not too long is followed up; `more` is what reading on gives.
abbrev pub after_slice : ℕ → Bytes → List Slice → Frame → SliceEnd → Frame
after_slice max longer slices more buffer_full =
    if leb max (length longer) then refused slices else more
after_slice max longer slices more terminated = record {
  bytes = longer;
  failure = none;
  rest = slices;
}
after_slice max longer slices more end_of_stream = record {
  bytes = longer;
  failure = some eof;
  rest = slices;
}
after_slice max longer slices more (broken message) = record {
  bytes = longer;
  failure = some (failed message);
  rest = slices;
}

-- The loop of `readFrameBytes`, with the frame so far.
unfoldable pub read_loop : ℕ → Bytes → List Slice → Frame
read_loop max frame [] =
    if ltb max (length frame)
    then refused []
    else record { bytes = frame; failure = some eof; rest = [] }
read_loop max frame (slice ∷ slices) =
    let longer = frame ++ slice.chunk in
    let more = read_loop max longer slices in
    if ltb max (length frame + length slice.chunk)
    then refused slices
    else after_slice max longer slices more slice.ends

-- `readFrameBytes`, with `maxFrameBytes`
unfoldable pub read_frame_bytes : ℕ → List Slice → Frame
read_frame_bytes max slices = read_loop max [] slices

abbrev newline_frame : Bytes → Option ReadError → List Slice → Result ReadError (Bytes × List Slice)
newline_frame bytes none rest = ok (bytes, rest)
newline_frame (b ∷ bytes) (some eof) rest = err missing_newline
newline_frame bytes (some e) rest = err e

unfoldable pub read_newline_frame : ℕ → List Slice → Result ReadError (Bytes × List Slice)
read_newline_frame max slices =
    let frame = read_frame_bytes max slices in newline_frame frame.bytes frame.failure frame.rest

pub record RpcError : Type 0 where
  pub code : String
  pub message : String

-- `responseEnvelope`; the raw result is `none` where it was not set.
pub record Response : Type 0 where
  pub id : String
  pub result : Option String
  pub error : Option RpcError

-- `json.Unmarshal` into a map of raw members, a text, and a pointer to an `rpcError`.
pub record Decoder : Type 0 where
  pub members : Bytes → Result String (Dict String)
  pub text : String → Result String String
  pub failure : String → Result String (Option RpcError)

pub data ClientError : Type 0 where
  read_response read_end : ReadError → ClientError
  malformed id_malformed error_malformed : String → ClientError
  both_outcomes no_outcome extra_line : ClientError
  id_mismatch : String → String → ClientError
  rpc_failed : String → String → ClientError
  -- of a subscription
  read_acknowledgement : ReadError → ClientError
  acknowledgement_malformed acknowledgement_of_type : String → ClientError

unfoldable pub is_json_null : String → Bool
is_json_null raw = trim_space raw == "null"

-- An error member, where it is not an explicit null.
abbrev pub present_error : Option String → Option String
present_error none = none
present_error (some raw) = if is_json_null raw then none else some raw

module _ (D : Decoder) where
  abbrev id_of : Option String → Result ClientError String
  id_of none = ok ""
  id_of (some raw) = map_err id_malformed (D.text raw)

  -- The switch over the outcomes.
  abbrev pub outcome_of : String → Option String → Option String → Result ClientError Response
  outcome_of id (some result) (some failure) = err both_outcomes
  outcome_of id none none = err no_outcome
  outcome_of id (some result) none = ok (record { id = id; result = some result; error = none })
  outcome_of id none (some failure) =
      map_err error_malformed (D.failure failure) >>= λ (e : Option RpcError).
      ok (record { id = id; result = none; error = e })

  -- `UnmarshalJSON`, from the members on.
  unfoldable pub unmarshal_members : Dict String → Result ClientError Response
  unmarshal_members members = id_of (lookup "id" members) >>= λ (id : String).
      outcome_of id (lookup "result" members) (present_error (lookup "error" members))

  unfoldable pub unmarshal_response : Bytes → Result ClientError Response
  unmarshal_response line = map_err malformed (D.members line) >>= unmarshal_members

  abbrev check_id : String → Response → Result ClientError Response
  check_id id response = if response.id == id then ok response else err (id_mismatch response.id id)

  unfoldable pub decode_response : Bytes → String → Result ClientError Response
  decode_response line id = unmarshal_response line >>= check_id id

abbrev pub context_error : Option String → ReadError → ReadError
context_error none e = e
context_error (some message) e = context_ended message

abbrev connection_end : Option String → Bytes → Option ReadError → Result ClientError (Unit {0})
connection_end ctx (b ∷ bytes) failure = err extra_line
connection_end ctx [] (some eof) = ok tt
connection_end ctx [] (some e) = err (read_end (context_error ctx e))
connection_end ctx [] none = err extra_line

unfoldable pub require_connection_end :
    ℕ → Option String → List Slice → Result ClientError (Unit {0})
require_connection_end max ctx slices =
    let frame = read_frame_bytes max slices in connection_end ctx frame.bytes frame.failure

abbrev pub raw_result : Response → Result ClientError (Option String)
raw_result response = elim response.error [
  | none ↦ ok response.result
  | some e ↦ err (rpc_failed e.code e.message)
]

-- `call`, from the answer on: the raw result that is decoded for the caller. The error of the
-- call's context, if it has ended, is that of the whole reading.
unfoldable pub receive :
    Decoder → ℕ → Option String → String → List Slice → Result ClientError (Option String)
receive D max ctx id slices = do
  (line, rest) ←
      map_err (λ (e : ReadError). read_response (context_error ctx e))
        (read_newline_frame max slices)
  response ← decode_response D line id
  closed ← require_connection_end max ctx rest
  raw_result response
