-- ===== src/Manager/Wait/Ready.antt =====
-- A webhook server that gets ready in time is waited for.
use ptp_operator_upstream.Base.{
  ℕ, ◌+◌, ◌≤◌, Option, none, some, ◌≡◌, arith, ok, inl, inr, refl, sym, ap, ◌∙◌, some-error≢none,
}
use ptp_operator_upstream.Base.Text.{codes}
use ptp_operator_upstream.Manager.Wait.{
  webhook_timeout, healthz_url, WaitError, bad_request, webhook_timed_out, Waiter,
  wait_for_webhook_server,
}
use ptp_operator_upstream.Manager.Wait.Ends.{lt_or_le, IsVerdict, wait_for_webhook_server-IsOutcome}

module _ {W Q E : Type 0} (k : Waiter W Q E) where
  -- A check that begins at the time `ready` or later succeeds.
  abbrev AnswersFrom : Q → ℕ → Type 0
  AnswersFrom q ready = (w : W) → ready ≤ k.now w → (w' : W) × (k.check q w ≡ (w', none))

  abbrev TakesAtMost : Q → ℕ → Type 0
  TakesAtMost q latency = (w : W) → k.now (k.check q w).0 ≤ k.now w + latency

  no_timeout :
      (q : Q) (ready latency start : ℕ) (w : W)
      → AnswersFrom q ready
      → TakesAtMost q latency
      → ready + latency ≤ start + webhook_timeout
      → IsVerdict k q start (w, some webhook_timed_out)
      → ⊥
  no_timeout q ready latency start w answers prompt l (v, e, h, late) =
      elim (lt_or_le (k.now v) ready) [
        | inl early ↦ let p : k.now w ≤ k.now v + latency = rw h at (prompt v) in omega arith
        | inr begun ↦ let (w', g) = answers v begun in some-error≢none w w' e (sym h ∙ g)
      ]

  verdict_success :
      (q : Q) (ready latency start : ℕ) (r : W × Option (WaitError E))
      → AnswersFrom q ready
      → TakesAtMost q latency
      → ready + latency ≤ start + webhook_timeout
      → IsVerdict k q start r
      → (v : W) × (k.check q v ≡ (r.0, none)) × (r.1 ≡ none)
  verdict_success q ready latency start (w, none) answers prompt l (v, h) = (v, h, refl)
  verdict_success q ready latency start (w, some webhook_timed_out) answers prompt l h =
      absurd (no_timeout q ready latency start w answers prompt l h)
  verdict_success q ready latency start (w, some (bad_request e)) answers prompt l h = absurd h

-- If the request can be built, a check takes at most `latency`, and every check from the time
-- `ready` on succeeds, where `ready` and `latency` together lie within 30 seconds of the start, then
-- the wait ends within 32 checks without an error, straight after a check that succeeded.
pub wait_for_webhook_server_ready :
    {W Q E : Type 0} (k : Waiter W Q E) (q : Q) (ready latency : ℕ) (w : W)
    → k.new_request (codes "GET") healthz_url ≡ ok q
    → AnswersFrom k q ready
    → TakesAtMost k q latency
    → ready + latency ≤ k.now w + webhook_timeout
    → (w' : W) × (wait_for_webhook_server k 32 w ≡ some (w', none))
      × ((v : W) × (k.check q v ≡ (w', none)))
wait_for_webhook_server_ready k q ready latency w built answers prompt l =
    let (r, ends, verdict) = wait_for_webhook_server-IsOutcome k w in
    let (v, h, e) =
      verdict_success k q ready latency (k.now w) r answers prompt l (rw built at verdict) in
    (r.0, ends ∙ ap (λ o. some (r.0, o)) e, (v, h))
