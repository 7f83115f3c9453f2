-- ===== src/Runner/Reconnection.antt =====
-- How internal/controller/runner.go's `reconnect` paces itself, and when it ends.
use native.Mathlib.Nat.{one-le-pow, two-pow-succ}
use herdr_tabline.Base.{
  ℕ, zero, suc, ◌+◌, ◌*◌, ◌^◌, ◌≤◌, ◌<◌, ◌≡◌, refl, String, true, false, none, some, arith, leb,
}
use herdr_tabline.Base.Int.{pos}
use herdr_tabline.Render.Width.{Graphemes}
use herdr_tabline.Render.Engine.{Templates}
use herdr_tabline.Config.Types.{Host}
use herdr_tabline.Controller.{Services}
use herdr_tabline.Runner.{
  subscriptions, min, delay_at, Source, Reconnected, connected, ended, reconnect,
}

-- The pace, independent of the schedule's table: from a quarter of a second on, twice as long each time, and
-- five seconds at most.
abbrev pub pace : ℕ → ℕ
pace attempt = min (250_000_000 * 2 ^ attempt) 5_000_000_000

pow_large : (n : ℕ) → 64 ≤ 2 ^ suc (suc (suc (suc (suc (suc n)))))
pow_large n = omega (
  arith,
  one-le-pow n 2 (omega arith),
  two-pow-succ n,
  two-pow-succ (suc n),
  two-pow-succ (suc (suc n)),
  two-pow-succ (suc (suc (suc n))),
  two-pow-succ (suc (suc (suc (suc n)))),
  two-pow-succ (suc (suc (suc (suc (suc n))))),
)

-- For every attempt: the index into the schedule is in range, and the delay is a quarter of a second,
-- doubled for each failed attempt, and five seconds at most.
pub delay_at_lem : (attempt : ℕ) → delay_at attempt ≡ some (pos (pace attempt))
unfolding delay_at
delay_at_lem zero = refl
delay_at_lem (suc zero) = refl
delay_at_lem (suc (suc zero)) = refl
delay_at_lem (suc (suc (suc zero))) = refl
delay_at_lem (suc (suc (suc (suc zero)))) = refl
delay_at_lem (suc (suc (suc (suc (suc zero))))) = refl
delay_at_lem (suc (suc (suc (suc (suc (suc n)))))) =
    let late : leb (suc (suc (suc (suc (suc (suc n)))))) 5 ≡ false = ground arith in
    let slow : leb (250_000_000 * 2 ^ suc (suc (suc (suc (suc (suc n)))))) 5_000_000_000 ≡ false =
      ground (arith, pow_large n) in
    rw (late, slow) refl

module _ (G : Graphemes) (H : Host) (T : Templates) (S : Services H T) (C : Source G H T S) where
  -- A round of the loop that the source leaves by a return, and the result.
  pub data Ends (attempt : ℕ) (w : S.World) : Reconnected × S.World → Type 0 where
    interrupted :
        (C.sleep (pos (pace attempt)) w).0 ≡ false
        → Ends attempt w (ended, (C.sleep (pos (pace attempt)) w).1)
    cancelled :
        {e : String}
        → (C.sleep (pos (pace attempt)) w).0 ≡ true
        → S.ctx_err (C.sleep (pos (pace attempt)) w).1 ≡ some e
        → Ends attempt w (ended, (C.sleep (pos (pace attempt)) w).1)
    subscribes :
        {v : S.World}
        → (C.sleep (pos (pace attempt)) w).0 ≡ true
        → S.ctx_err (C.sleep (pos (pace attempt)) w).1 ≡ none
        → C.subscribe subscriptions (C.sleep (pos (pace attempt)) w).1 ≡ (true, v)
        → Ends attempt w (connected, v)

  -- The rounds from an attempt on: failed ones, and then one that ends the loop.
  pub data Rounds : ℕ → ℕ → S.World → Reconnected × S.World → Type 0 where
    last :
        {attempt : ℕ} {w : S.World} {out : Reconnected × S.World}
        → Ends attempt w out
        → Rounds attempt 0 w out
    failing :
        {attempt n : ℕ} {w v : S.World} {out : Reconnected × S.World}
        → (C.sleep (pos (pace attempt)) w).0 ≡ true
        → S.ctx_err (C.sleep (pos (pace attempt)) w).1 ≡ none
        → C.subscribe subscriptions (C.sleep (pos (pace attempt)) w).1 ≡ (false, v)
        → Rounds (attempt + 1) n v out
        → Rounds attempt (suc n) w out

  Ends-reconnect :
      {attempt : ℕ} {w : S.World} {out : Reconnected × S.World} (fuel : ℕ)
      → Ends attempt w out
      → reconnect G H T S C (suc fuel) attempt w ≡ out
  unfolding reconnect
  Ends-reconnect {attempt} fuel (interrupted a) = ground (arith, delay_at_lem attempt)
  Ends-reconnect {attempt} fuel (cancelled a b) = ground (arith, delay_at_lem attempt)
  Ends-reconnect {attempt} fuel (subscribes a b c) = ground (arith, delay_at_lem attempt)

  -- For every source of events and pace of failures: where the rounds of a reconnection come to one that ends it, by a
  -- subscription or by the end of the context, after `n` failed ones, each behind a sleep of the
  -- doubled and bounded delay, then with fuel for more than `n` rounds the code returns that
  -- round's outcome: it stops there, and neither runs out of fuel nor indexes out of range.
  pub Rounds-reconnect :
      (fuel : ℕ) {attempt n : ℕ} {w : S.World} {out : Reconnected × S.World}
      → n < fuel
      → Rounds attempt n w out
      → reconnect G H T S C fuel attempt w ≡ out
  unfolding reconnect
  Rounds-reconnect zero h r = absurd (omega arith)
  Rounds-reconnect (suc fuel) h (last e) = Ends-reconnect fuel e
  Rounds-reconnect (suc fuel) {attempt} h (failing a b c r) =
      ground (arith, delay_at_lem attempt, Rounds-reconnect fuel (omega arith) r)
