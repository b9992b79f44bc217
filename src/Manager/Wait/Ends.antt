-- ===== src/Manager/Wait/Ends.antt =====
-- The loop of `waitForWebhookServer` ends.
use ptp_operator_upstream.Base.{
  answer-cases, ℕ, zero, suc, ◌+◌, ◌-◌, ◌*◌, ◌≤◌, ◌<◌, Option, none, some, ◌≡◌, refl, arith, Result,
  ok, fail, ltb, true, false, ok-or-fail, ◌⊎◌, inl, inr,
}
use ptp_operator_upstream.Base.Text.{codes}
use ptp_operator_upstream.Manager.Wait.{
  second, webhook_timeout, polling_freq, healthz_url, WaitError, bad_request, webhook_timed_out,
  Waiter, since, after_check, wait_loop, wait_for_webhook_server,
}

pub lt_or_le : (a b : ℕ) → (a < b) ⊎ (b ≤ a)
lt_or_le a b = ground arith

module _ {W Q E : Type 0} (k : Waiter W Q E) where
  -- The result comes straight from a check, which succeeded or was still failing after the timeout.
  abbrev pub IsVerdict : Q → ℕ → W × Option (WaitError E) → Type 0
  IsVerdict q start (w, none) = (v : W) × (k.check q v ≡ (w, none))
  IsVerdict q start (w, some webhook_timed_out) =
      (v : W) × (e : E) × (k.check q v ≡ (w, some e)) × (start + webhook_timeout < k.now w)
  IsVerdict q start (w, some (bad_request e)) = ⊥

  -- A failing check that comes too late ends the loop.
  after_check_late :
      (again : W → Option (W × Option (WaitError E))) (start : ℕ) (w : W) (e : E)
      → start + webhook_timeout < k.now w
      → after_check k again start (w, some e) ≡ some (w, some webhook_timed_out)
  unfolding after_check since
  after_check_late again start w e l =
      let t : ltb webhook_timeout (k.now w - start) ≡ true = ground arith in
      rw (after_check, since, t)

  -- After any other failing check the loop sleeps.
  after_check_again :
      (again : W → Option (W × Option (WaitError E))) (start : ℕ) (w : W) (e : E)
      → k.now w ≤ start + webhook_timeout
      → after_check k again start (w, some e) ≡ again (k.sleep polling_freq w)
  unfolding after_check since
  after_check_again again start w e l =
      let t : ltb webhook_timeout (k.now w - start) ≡ false = ground arith in
      rw (after_check, since, t)

  wait_loop_late :
      (fuel : ℕ) (q : Q) (start : ℕ) (w w' : W) (e : E)
      → k.check q w ≡ (w', some e)
      → start + webhook_timeout < k.now w'
      → wait_loop k (suc fuel) q start w ≡ some (w', some webhook_timed_out)
  unfolding wait_loop
  wait_loop_late fuel q start w w' e h l =
      rw (wait_loop, h) (after_check_late (wait_loop k fuel q start) start w' e l)

  wait_loop_again :
      (fuel : ℕ) (q : Q) (start : ℕ) (w w' : W) (e : E)
      → k.check q w ≡ (w', some e)
      → k.now w' ≤ start + webhook_timeout
      → wait_loop k (suc fuel) q start w ≡ wait_loop k fuel q start (k.sleep polling_freq w')
  unfolding wait_loop
  wait_loop_again fuel q start w w' e h l =
      rw (wait_loop, h) (after_check_again (wait_loop k fuel q start) start w' e l)

  wait_loop_answered :
      (fuel : ℕ) (q : Q) (start : ℕ) (w w' : W)
      → k.check q w ≡ (w', none)
      → wait_loop k (suc fuel) q start w ≡ some (w', none)
  unfolding wait_loop after_check
  wait_loop_answered fuel q start w w' h = rw (wait_loop, h)

  later : (q : Q) (w w' : W) (a : Option E) → k.check q w ≡ (w', a) → k.now w ≤ k.now w'
  later q w w' a e = rw e at (k.check_time q w)

  -- With one more round than there are seconds left, the loop ends.
  wait_loop-IsVerdict :
      (fuel : ℕ) (q : Q) (start : ℕ) (w : W)
      → start + webhook_timeout < k.now w + fuel * second
      → (r : W × Option (WaitError E)) × (wait_loop k (suc fuel) q start w ≡ some r)
        × IsVerdict q start r
  wait_loop-IsVerdict zero q start w l = elim (answer-cases (k.check q w)) [
    | inl (w', e) ↦ ((w', none), wait_loop_answered zero q start w w' e, (w, e))
    | inr (w', x, e) ↦
        let t = later q w w' (some x) e in
        let l' : start + webhook_timeout < k.now w' = omega arith in
        ((w', some webhook_timed_out), wait_loop_late zero q start w w' x e l', (w, x, e, l'))
  ]
  wait_loop-IsVerdict (suc fuel) q start w l = elim (answer-cases (k.check q w)) [
    | inl (w', e) ↦ ((w', none), wait_loop_answered (suc fuel) q start w w' e, (w, e))
    | inr (w', x, e) ↦ elim (lt_or_le (start + webhook_timeout) (k.now w')) [
      | inl l' ↦ (
        (w', some webhook_timed_out),
        wait_loop_late (suc fuel) q start w w' x e l',
        (w, x, e, l'),
      )
      | inr l' ↦
          let t = later q w w' (some x) e in
          let s = k.sleep_time polling_freq w' in
          rw (wait_loop_again (suc fuel) q start w w' x e l')
            (wait_loop-IsVerdict fuel q start (k.sleep polling_freq w') (omega arith))
    ]
  ]

  -- What the wait ends with: the error of the request, or a verdict of the loop.
  abbrev pub IsOutcome : W → W × Option (WaitError E) → Result E Q → Type 0
  IsOutcome w r (fail e) = r ≡ (w, some (bad_request e))
  IsOutcome w r (ok q) = IsVerdict q (k.now w) r

-- The wait ends after at most 32 checks, whatever the checker answers and however long the checks
-- and the sleeps take: with the error of a request that cannot be built, with no error straight
-- after a check that succeeded, or with the timeout straight after a check that failed more than 30
-- seconds after the start.
pub wait_for_webhook_server-IsOutcome :
    {W Q E : Type 0} (k : Waiter W Q E) (w : W)
    → (r : W × Option (WaitError E)) × (wait_for_webhook_server k 32 w ≡ some r)
      × IsOutcome k w r (k.new_request (codes "GET") healthz_url)
unfolding wait_for_webhook_server
wait_for_webhook_server-IsOutcome k w =
    elim (ok-or-fail (k.new_request (codes "GET") healthz_url)) [
      | inl (q, e) ↦
          rw (e, wait_for_webhook_server) (wait_loop-IsVerdict k 31 q (k.now w) w (omega arith))
      | inr (x, e) ↦ ((w, some (bad_request x)), rw (e, wait_for_webhook_server), rw e refl)
    ]
