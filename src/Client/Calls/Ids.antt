-- ===== src/Client/Calls/Ids.antt =====
-- Which answers a call of internal/herdrapi/client_unix.go takes for its own.
use Prim.Native.String.append
use herdr_tabline.Base.{
  ℕ, ◌+◌, ◌%◌, ◌^◌, ◌<◌, ◌≤◌, ◌≡◌, sym, ap, ◌∙◌, arith, String, ◌<>◌, false, Option, some, List,
}
use herdr_tabline.Base.Int.{pos}
use herdr_tabline.Base.Decimal.{itoa, atoi, max_int, atoi-itoa}
use herdr_tabline.Base.Result.{ok, map_err}
use herdr_tabline.Client.{Slice, Decoder, receive}
use herdr_tabline.Client.Answers.{Answer, receive-Answer}
use herdr_tabline.Client.Calls.{
  Params, Meets, new_id, call, unless, context_or, refused, write_failed,
}

append_cancel : (p s t : String) → p <> s ≡ p <> t → s ≡ t
append_cancel String.[] s t h = sym (append.nil s) ∙ h ∙ append.nil t
append_cancel (String.◌∷◌ c p) s t h =
    let e : String.◌∷◌ c (p <> s) ≡ String.◌∷◌ c (p <> t) =
      sym (append.cons c p s) ∙ h ∙ append.cons c p t in
    append_cancel p s t (ground arith)

itoa-injective : (a b : ℕ) → a ≤ max_int → b ≤ max_int → itoa a ≡ itoa b → a ≡ b
itoa-injective a b h k e =
    let p : some (pos a) ≡ some (pos b) = sym (atoi-itoa a h) ∙ ap atoi e ∙ atoi-itoa b k in
    ground arith

-- For two counters below the greatest `int`: the requests that follow them have different ids.
pub new_id-injective : (a b : ℕ) → a < max_int → b < max_int → (new_id a).0 ≡ (new_id b).0 → a ≡ b
unfolding new_id
new_id-injective a b h k e =
    let small : (a + 1) % 2 ^ 64 ≡ a + 1 = omega arith in
    let small' : (b + 1) % 2 ^ 64 ≡ b + 1 = omega arith in
    let same : itoa ((a + 1) % 2 ^ 64) ≡ itoa ((b + 1) % 2 ^ 64) =
      append_cancel "herdr-tabline-" _ _ e in
    let next : a + 1 ≡ b + 1 =
      itoa-injective (a + 1) (b + 1) (omega arith) (omega arith)
        (ap itoa (sym small) ∙ same ∙ ap itoa small') in
    omega arith

module _ (D : Decoder) (max : ℕ) where
  sent-ok :
      (m : Meets) (id : String) (slices : List Slice) (out : Option String)
      → unless
          (context_or m.ctx m.write)
          write_failed
          (map_err refused (receive D max m.ctx id slices))
        ≡ ok out
      → Answer D max id slices out
  sent-ok m id slices out h = receive-Answer D max m.ctx id slices out (ground arith)

  -- For every decoder, bound, counter, method and parameters, and whatever the call meets: where it
  -- succeeds, the client was not closed, and the result is that of an answer with the id of the call's own request, the
  -- next of the counter, and with nothing behind it.
  pub call-Answer :
      (m : Meets) (method : String) (params : Params) (count : ℕ) (out : Option String)
      → (call D max m method params count).0 ≡ ok out
      → (m.closed ≡ false)
        × Answer D max
            (new_id count).0
            (m.answer (record { id = (new_id count).0; method = method; params = params }))
            out
  unfolding call
  call-Answer m method params count out h =
      let id = (new_id count).0 in
      let slices = m.answer (record { id = id; method = method; params = params }) in
      (ground arith, sent-ok m id slices out (ground arith))
