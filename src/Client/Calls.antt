-- ===== src/Client/Calls.antt =====
-- internal/herdrapi/client_unix.go's `call` as a whole, the three calls that use it, and the ids of requests.
-- What the system's calls report is an input; the decoding of a result is a parameter, of the
-- envelope that the answer wraps it in. The errors are not wrapped in the method's name.
pub mod Ids
use Prim.Native.String.append
use herdr_tabline.Base.{
  ℕ, ◌+◌, ◌%◌, ◌^◌, String, ◌<>◌, Bool, true, false, Option, none, some, List, if◌then◌else◌,
}
use herdr_tabline.Base.Decimal.{itoa}
use herdr_tabline.Base.Result.{Result, ok, err, ◌>>=◌, map_err}
use herdr_tabline.Api.{Snapshot, ProcessInfo}
use herdr_tabline.Client.{Slice, Decoder, ClientError, receive}

-- The parameters of the methods.
pub data Params : Type 0 where
  nothing : Params
  of_pane : (pane_id : String) → Params
  of_tab : (tab_id label : String) → Params
  of_events : (types : List String) → Params

-- `requestEnvelope`
pub record Request : Type 0 where
  pub id : String
  pub method : String
  pub params : Params

-- `newID`: the id, and the counter, of 64 bits, as it is left.
unfoldable pub new_id : ℕ → String × ℕ
new_id count = let next = (count + 1) % 2 ^ 64 in ("herdr-tabline-" <> itoa next, next)

pub data CallError : Type 0 where
  client_closed : CallError
  no_slot dial_failed deadline_failed write_failed : String → CallError
  refused : ClientError → CallError
  result_malformed : String → CallError

-- What one call meets: whether the client is closed, the errors of waiting for a slot, of dialling,
-- of setting the deadline and of writing the request, that of the context, and the answer.
pub record Meets : Type 0 where
  pub closed : Bool
  pub slot : Option String
  pub dial : Option String
  pub deadline : Option String
  pub write : Option String
  pub ctx : Option String
  pub answer : Request → List Slice

abbrev pub unless {ℓ} :
    {A : Type ℓ} → Option String → (String → CallError) → Result CallError A → Result CallError A
unless none e r = r
unless (some message) e r = err (e message)

-- The error of the call's context, if it has ended, or else that of the call.
abbrev pub context_or : Option String → Option String → Option String
context_or ctx none = none
context_or none (some message) = some message
context_or (some ended) (some message) = some ended

module _ (D : Decoder) (max : ℕ) where
  -- `call`, up to the raw result, with the counter of ids as it is left.
  unfoldable pub call : Meets → String → Params → ℕ → Result CallError (Option String) × ℕ
  call m method params count =
      let (id, next) = new_id count in
      let request : Request = record { id = id; method = method; params = params } in
      let before : Result CallError (Unit {0}) =
        if m.closed
        then err client_closed
        else unless m.slot no_slot (
            unless (context_or m.ctx m.dial) dial_failed
              (unless m.deadline deadline_failed (ok tt))) in
      elim before [
        | err e ↦ (err e, count)
        | ok u ↦ (
          unless (context_or m.ctx m.write) write_failed
              (map_err refused (receive D max m.ctx id (m.answer request))),
          next,
        )
      ]

  -- With the decoding of `result.snapshot` and `result.process_info`.
  unfoldable pub snapshot :
      (Option String → Result String Snapshot) → Meets → ℕ → Result CallError Snapshot × ℕ
  snapshot decode m count =
      let (raw, next) = call m "session.snapshot" nothing count in
      (raw >>= (λ result. map_err result_malformed (decode result)), next)

  unfoldable pub process_info :
      (Option String → Result String ProcessInfo)
      → Meets
      → String
      → ℕ
      → Result CallError ProcessInfo × ℕ
  process_info decode m pane_id count =
      let (raw, next) = call m "pane.process_info" (of_pane pane_id) count in
      (raw >>= (λ result. map_err result_malformed (decode result)), next)

  -- The result is not decoded.
  unfoldable pub rename_tab : Meets → String → String → ℕ → Result CallError (Unit {0}) × ℕ
  rename_tab m tab_id label count =
      let (raw, next) = call m "tab.rename" (of_tab tab_id label) count in
      (raw >>= (λ result. ok tt), next)
