-- ===== src/Manager/Run/Race.antt =====
-- What becomes of the result of `mgr.Start` when the goroutine assigns `err` too.
use ptp_operator_upstream.Base.{Option, none, some}
use ptp_operator_upstream.Manager.Run.{
  exits_with_success, exits_with_failure, waited, process, Reached, start_returns, main_fails,
  main_returns, wait_returns, begins, goes_on,
}

-- The exit status need not tell whether `mgr.Start` failed: if it fails while the webhook server
-- gets ready, an execution ends with success, and if it stops well while the wait times out, an
-- execution ends with failure.
pub exit_status_undetermined :
    {E : Type 0} (x y : E) (create : Option E)
    → Reached (some x) none create (process none exits_with_success waited)
      × Reached none (some y) create (process (some y) exits_with_failure waited)
exit_status_undetermined x y create = (
  goes_on (goes_on (goes_on begins start_returns) (wait_returns tt)) main_returns,
  goes_on (goes_on (goes_on begins start_returns) (wait_returns tt)) main_fails,
)
