-- ===== src/Client/Subscription/Opening.antt =====
-- internal/herdrapi/client_unix.go's `Subscribe` as a whole, up to the start of its goroutine, with what it
-- holds: its place in the client's group, its context and its connection. What the system's calls
-- report is an input, as for `call`; a subscription takes no slot.
use mathlib.Core.Path.{subst, sym}
use herdr_tabline.Base.{
  ℕ, ◌≡◌, ◌⊎◌, inl, inr, refl, String, Bool, true, false, Option, none, some, List, if◌then◌else◌,
  Bool-cases, Option-cases,
}
use herdr_tabline.Base.Result.{Result, ok, err}
use herdr_tabline.Client.{Slice, Decoder, ClientError}
use herdr_tabline.Client.Calls.{
  of_events, Request, new_id, CallError, client_closed, dial_failed, deadline_failed, write_failed,
  refused, Meets, context_or,
}
use herdr_tabline.Client.Subscription.{EventDecoder, acknowledged}
use herdr_tabline.Client.Subscription.Handshake.{Acknowledgement, acknowledged-Acknowledgement}

pub record Held : Type 0 where
  pub group : Bool
  pub context : Bool
  pub connection : Bool

abbrev pub nothing_held : Held
nothing_held = record { group = false; context = false; connection = false }

-- `begin`, where the client is open, `operationContext`, and `DialContext`
abbrev begun : Held → Held
begun held = record held { group = true }

abbrev with_context : Held → Held
with_context held = record held { context = true }

abbrev dialled : Held → Held
dialled held = record held { connection = true }

-- `cancel`, `conn.Close` and, deferred, `c.wg.Done` where nothing was transferred
abbrev cancelled : Held → Held
cancelled held = record held { context = false }

abbrev disconnected : Held → Held
disconnected held = record held { connection = false }

abbrev left : Held → Held
left held = record held { group = false }

-- The goroutine's deferred calls, the connection's first.
abbrev pub stream_over : Held → Held
stream_over held = left (cancelled (disconnected held))

abbrev pub subscription_request : String → List String → Request
subscription_request id names = record {
  id = id;
  method = "events.subscribe";
  params = of_events names;
}

module _ (D : Decoder) (E : EventDecoder) (max : ℕ) where
  -- From the acknowledgement on.
  abbrev answered : Held → Result ClientError (List Slice) → Result CallError (List Slice) × Held
  answered held (err e) = (err (refused e), left (cancelled (disconnected held)))
  answered held (ok rest) = (ok rest, held)

  -- The rest of the connection for the stream, what is held, and the counter of ids.
  unfoldable pub subscribe : Meets → List String → ℕ → (Result CallError (List Slice) × Held) × ℕ
  subscribe m names count =
      let (id, next) = new_id count in
      let prepared = with_context (begun nothing_held) in
      let held = dialled prepared in
      if m.closed
      then ((err client_closed, nothing_held), count)
      else elim (context_or m.ctx m.dial) [
        | some e ↦ ((err (dial_failed e), left (cancelled prepared)), count)
        | none ↦ elim m.deadline [
          | some e ↦ ((err (deadline_failed e), left (cancelled (disconnected held))), count)
          | none ↦ elim (context_or m.ctx m.write) [
            | some e ↦ ((err (write_failed e), left (cancelled (disconnected held))), next)
            | none ↦ (
              answered held
                  (acknowledged D E max m.ctx id (m.answer (subscription_request id names))),
              next,
            )
          ]
        ]
      ]

  -- A subscription that has started: all is held, for the goroutine to release, the client was open,
  -- and the acknowledgement answers the request.
  pub record Started (m : Meets) (names : List String) (count : ℕ)
      (r : Result CallError (List Slice) × Held) : Type 0 where
    pub rest : List Slice
    pub succeeded : r.0 ≡ ok rest
    pub all_held : r.1 ≡ record { group = true; context = true; connection = true }
    pub released : stream_over r.1 ≡ nothing_held
    pub is_open : m.closed ≡ false
    pub dial : m.dial ≡ none
    pub write : m.write ≡ none
    pub acknowledgement :
        Acknowledgement D E max
          (new_id count).0
          (m.answer (subscription_request (new_id count).0 names))
          rest

  Outcome : Meets → List String → ℕ → Result CallError (List Slice) × Held → Type 0
  Outcome m names count r =
      ((e : CallError) × (r ≡ (err e, nothing_held))) ⊎ Started m names count r

  context_or-none : (ctx message : Option String) → context_or ctx message ≡ none → message ≡ none
  context_or-none ctx none h = refl
  context_or-none none (some message) h = cc
  context_or-none (some ended) (some message) h = cc

  answered-Outcome :
      (m : Meets) (names : List String) (count : ℕ) (r : Result ClientError (List Slice))
      → m.closed ≡ false
      → m.dial ≡ none
      → m.write ≡ none
      → acknowledged D E max m.ctx
          (new_id count).0
          (m.answer (subscription_request (new_id count).0 names))
        ≡ r
      → Outcome m names count
          (answered (record { group = true; context = true; connection = true }) r)
  unfolding Outcome
  answered-Outcome m names count (err e) is_open dial write h = inl (refused e, refl)
  answered-Outcome m names count (ok rest) is_open dial write h = inr (record {
    rest = rest;
    succeeded = refl;
    all_held = refl;
    released = refl;
    is_open = is_open;
    dial = dial;
    write = write;
    acknowledgement = acknowledged-Acknowledgement D E max m.ctx (new_id count).0 _ rest h;
  })

  subscribe-answered :
      (m : Meets) (names : List String) (count : ℕ)
      → m.closed ≡ false
      → context_or m.ctx m.dial ≡ none
      → m.deadline ≡ none
      → context_or m.ctx m.write ≡ none
      → (subscribe m names count).0
        ≡ answered
            (record { group = true; context = true; connection = true })
            (acknowledged D E max m.ctx
              (new_id count).0
              (m.answer (subscription_request (new_id count).0 names)))
  unfolding subscribe
  subscribe-answered m names count is_open dial deadline write = rw (is_open, dial, deadline, write)

  -- For every decoder, bound, list of types, counter, and whatever the system's calls report: a subscription that fails
  -- holds nothing; one that succeeds was begun on an open client and dialled, holds its place in the group, its context
  -- and its connection, all of which its goroutine releases in the end, and was acknowledged by an answer to
  -- its own request, behind which the stream reads on.
  pub subscribe-Started :
      (m : Meets) (names : List String) (count : ℕ)
      → ((e : CallError) × ((subscribe m names count).0 ≡ (err e, nothing_held)))
        ⊎ Started m names count (subscribe m names count).0
  unfolding subscribe Outcome
  subscribe-Started m names count = elim (Bool-cases m.closed) [
    | inl shut ↦ rw shut (inl (client_closed, refl))
    | inr is_open ↦ elim (Option-cases (context_or m.ctx m.dial)) [
      | inr (e, failed) ↦ rw (is_open, failed) (inl (dial_failed e, refl))
      | inl dial ↦ elim (Option-cases m.deadline) [
        | inr (e, failed) ↦ rw (is_open, dial, failed) (inl (deadline_failed e, refl))
        | inl deadline ↦ elim (Option-cases (context_or m.ctx m.write)) [
          | inr (e, failed) ↦ rw (is_open, dial, deadline, failed) (inl (write_failed e, refl))
          | inl write ↦
              subst (λ r. Outcome m names count r)
                (sym (subscribe-answered m names count is_open dial deadline write))
                (answered-Outcome m names count _ is_open (context_or-none m.ctx m.dial dial)
                  (context_or-none m.ctx m.write write) refl)
        ]
      ]
    ]
  ]
