-- ===== src/Tests/Answering.antt =====
-- The reading of answers, of internal/herdrapi/client_unix.go, on short streams.
use herdr_tabline.Base.Decimal.{itoa}
use herdr_tabline.Client.Calls.{Meets, nothing, new_id, call}
use herdr_tabline.Client.Calls.Ids.{call-Answer}
use herdr_tabline.Base.{◌≡◌, ◌≢◌, false, refl, String, none, some, List, [], ◌∷◌, string_eq, nat_eq}
use herdr_tabline.Base.Dict.{Dict, lookup}
use herdr_tabline.Base.Result.{ok}
use herdr_tabline.Base.Text.{trim_space}
use herdr_tabline.Client.{
  Slice, terminated, buffer_full, too_large, read_loop, read_frame_bytes, read_newline_frame,
  Response, Decoder, is_json_null, unmarshal_members, unmarshal_response, decode_response,
  require_connection_end, receive,
}
use herdr_tabline.Client.Answers.{Answer}

-- Every frame is the same answer, whose members hold plain texts.
abbrev pub answer_members : Dict String
answer_members = ("id", "herdr-tabline-1") ∷ ("result", "{}") ∷ ("error", " null ") ∷ []

abbrev pub plain_decoder : Decoder
plain_decoder = record {
  members = λ line. ok answer_members;
  text = λ raw. ok raw;
  failure = λ raw. ok (some (record { code = raw; message = raw }));
}

abbrev pub answer_response : Response
answer_response = record { id = "herdr-tabline-1"; result = some "{}"; error = none }

abbrev two_slices : List Slice
two_slices =
    record { chunk = 1 ∷ 2 ∷ []; ends = buffer_full }
    ∷ record { chunk = 3 ∷ 10 ∷ []; ends = terminated }
    ∷ []

read_two :
    read_frame_bytes 8 two_slices
    ≡ record { bytes = 1 ∷ 2 ∷ 3 ∷ 10 ∷ []; failure = none; rest = [] }
unfolding read_frame_bytes read_loop
read_two = refl

refuse_two : (read_frame_bytes 3 two_slices).failure ≡ some too_large
unfolding read_frame_bytes read_loop
refuse_two = refl

answer_unmarshalled : unmarshal_members plain_decoder answer_members ≡ ok answer_response
unfolding unmarshal_members is_json_null trim_space lookup string_eq nat_eq
answer_unmarshalled = refl

answer_received : receive plain_decoder 8 none "herdr-tabline-1" two_slices ≡ ok (some "{}")
unfolding receive read_newline_frame read_frame_bytes read_loop decode_response unmarshal_response
    unmarshal_members require_connection_end is_json_null trim_space lookup string_eq nat_eq
answer_received = refl

-- A call that meets no failure, and whose answer comes in two slices.
abbrev smooth : Meets
smooth = record {
  closed = false;
  slot = none;
  dial = none;
  deadline = none;
  write = none;
  ctx = none;
  answer = λ request. two_slices;
}

first_call : (call plain_decoder 8 smooth "session.snapshot" nothing 0).0 ≡ ok (some "{}")
unfolding call new_id itoa receive read_newline_frame read_frame_bytes read_loop decode_response
    unmarshal_response unmarshal_members require_connection_end is_json_null trim_space lookup
    string_eq nat_eq
first_call = refl

call-Answer_example :
    (smooth.closed ≡ false) × Answer plain_decoder 8 (new_id 0).0 two_slices (some "{}")
call-Answer_example =
    call-Answer plain_decoder 8 smooth "session.snapshot" nothing 0 (some "{}") first_call

second_call : (call plain_decoder 8 smooth "session.snapshot" nothing 1).0 ≢ ok (some "{}")
unfolding call new_id itoa receive read_newline_frame read_frame_bytes read_loop decode_response
    unmarshal_response unmarshal_members require_connection_end is_json_null trim_space lookup
    string_eq nat_eq
second_call h = cc
