-- ===== src/Manager/Wait.antt =====
-- `waitForWebhookServer` of main.go. The checker, the clock and the sleep are parameters, which
-- change a state `W`; times are in nanoseconds of the monotonic clock.
pub mod Ends
pub mod Ready
use ptp_operator_upstream.Base.{
  ℕ, zero, suc, ◌+◌, ◌-◌, ◌*◌, ◌≤◌, Option, none, some, Result, ok, fail, ltb, true, false,
}
use ptp_operator_upstream.Base.Text.{Text, codes}

abbrev pub second : ℕ
second = 1000000000

-- `timeout`.
abbrev pub webhook_timeout : ℕ
webhook_timeout = 30 * second

abbrev pub polling_freq : ℕ
polling_freq = 1 * second

abbrev pub healthz_url : Text
healthz_url = codes "https://localhost:9443/healthz"

pub data WaitError (E : Type 0) : Type 0 where
  bad_request : E → WaitError E
  webhook_timed_out : WaitError E

-- What the loop calls: `http.NewRequest` and the checker on a request `Q`, `time.Now` and
-- `time.Sleep`. The clock does not go back while the checker runs, and a sleep is not too short.
pub record Waiter (W Q E : Type 0) : Type 0 where
  pub new_request : Text → Text → Result E Q
  pub check : Q → W → W × Option E
  pub now : W → ℕ
  pub sleep : ℕ → W → W
  pub check_time : (q : Q) (w : W) → now w ≤ now (check q w).0
  pub sleep_time : (d : ℕ) (w : W) → now w + d ≤ now (sleep d w)

module _ {W Q E : Type 0} (k : Waiter W Q E) where
  -- `time.Since`.
  unfoldable pub since : ℕ → W → ℕ
  since start w = k.now w - start

  -- A round: what follows the check, where `again` is the rest of the loop.
  unfoldable pub after_check :
      (W → Option (W × Option (WaitError E))) → ℕ → W × Option E → Option (W × Option (WaitError E))
  unfolding since
  after_check again start (w, none) = some (w, none)
  after_check again start (w, some e) = elim (ltb webhook_timeout (since start w)) [
    | true ↦ some (w, some webhook_timed_out)
    | false ↦ again (k.sleep polling_freq w)
  ]

  -- At most so many rounds of the loop; `none` stands for a loop that is still running.
  unfoldable pub wait_loop : ℕ → Q → ℕ → W → Option (W × Option (WaitError E))
  unfolding after_check
  wait_loop zero q start w = none
  wait_loop (suc fuel) q start w = after_check (wait_loop fuel q start) start (k.check q w)

  unfoldable pub wait_for_webhook_server : ℕ → W → Option (W × Option (WaitError E))
  unfolding wait_loop
  wait_for_webhook_server fuel w = elim (k.new_request (codes "GET") healthz_url) [
    | fail e ↦ some (w, some (bad_request e))
    | ok q ↦ wait_loop fuel q (k.now w) w
  ]
