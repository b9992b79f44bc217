-- ===== src/Manager/Run.antt =====
-- The end of `main` of main.go: the manager runs while a goroutine waits for the webhook server and
-- creates the default configuration. Both assign and read the one variable `err` of `main`; an
-- execution is a sequence of their assignments and tests, each of which is taken as atomic.
pub mod Gate
pub mod Race
use ptp_operator_upstream.Base.{Option, none, some}

-- Where `main` stands: in `mgr.Start`, behind the assignment of its result, or at its end.
pub data MainAt : Type 0 where
  serving stopped : MainAt
  exits_with_success exits_with_failure : MainAt

-- Where the goroutine stands: in `waitForWebhookServer`, behind the assignment of its result, in
-- `createDefaultOperatorConfig`, behind that assignment, or at its end.
pub data WorkerAt : Type 0 where
  waiting waited creating created finished : WorkerAt

pub record Process (E : Type 0) : Type 0 where
  pub err : Option E
  pub main : MainAt
  pub worker : WorkerAt

abbrev pub process : {E : Type 0} → Option E → MainAt → WorkerAt → Process E
process e m g = record { err = e; main = m; worker = g }

-- The goroutine runs while the process does.
abbrev IsAlive : MainAt → Type 0
IsAlive serving = Unit
IsAlive stopped = Unit
IsAlive exits_with_success = ⊥
IsAlive exits_with_failure = ⊥

-- The arguments are what `mgr.Start`, `waitForWebhookServer` and `createDefaultOperatorConfig`
-- return in this execution.
module _ {E : Type 0} (start wait create : Option E) where
  pub data Step : Process E → Process E → Type 0 where
    start_returns :
        {e : Option E} {g : WorkerAt} → Step (process e serving g) (process start stopped g)
    main_fails :
        {x : E} {g : WorkerAt}
        → Step (process (some x) stopped g) (process (some x) exits_with_failure g)
    main_returns :
        {g : WorkerAt} → Step (process none stopped g) (process none exits_with_success g)
    wait_returns :
        {e : Option E} {m : MainAt} → IsAlive m → Step (process e m waiting) (process wait m waited)
    worker_gives_up :
        {x : E} {m : MainAt}
        → IsAlive m
        → Step (process (some x) m waited) (process (some x) m finished)
    worker_goes_on :
        {m : MainAt} → IsAlive m → Step (process none m waited) (process none m creating)
    create_returns :
        {e : Option E} {m : MainAt}
        → IsAlive m
        → Step (process e m creating) (process create m created)
    worker_logs :
        {e : Option E} {m : MainAt} → IsAlive m → Step (process e m created) (process e m finished)

  -- What an execution reaches: `err` is nil when the goroutine starts, since every call in front of
  -- it succeeded.
  pub data Reached : Process E → Type 0 where
    begins : Reached (process none serving waiting)
    goes_on : {p q : Process E} → Reached p → Step p q → Reached q
