-- ===== src/Manager/Run/Gate.antt =====
-- When the default configuration is created, and what becomes of the result of `mgr.Start`.
use ptp_operator_upstream.Base.{Option, none, some, ◌≡◌, ◌≢◌, ◌⊎◌, inl, inr, refl, sym}
use ptp_operator_upstream.Manager.Run.{
  MainAt, serving, stopped, exits_with_success, exits_with_failure, WorkerAt, waiting, waited,
  creating, created, finished, Process, process, Step, start_returns, main_fails, main_returns,
  wait_returns, worker_gives_up, worker_goes_on, create_returns, worker_logs, Reached, begins,
  goes_on,
}

module _ {E : Type 0} (start wait create : Option E) where
  -- `mgr.Start` has returned without an error.
  abbrev StoppedWell : MainAt → Type 0
  StoppedWell m = (start ≡ none) × (m ≢ serving)

  -- What `err` may hold while the goroutine is about to read it, and what it has read.
  abbrev IsGated : Option E → MainAt → WorkerAt → Type 0
  IsGated e m waiting = Unit
  IsGated e m waited = (e ≡ wait) ⊎ ((e ≡ start) × (m ≢ serving))
  IsGated e m creating = (wait ≡ none) ⊎ StoppedWell m
  IsGated e m created = (wait ≡ none) ⊎ StoppedWell m
  IsGated e m finished = Unit

  stopped≢serving : stopped ≡ serving → ⊥
  stopped≢serving h = cc

  -- The main thread moves on.
  gate_start : (e : Option E) (g : WorkerAt) → IsGated e serving g → IsGated start stopped g
  gate_start e waiting h = tt
  gate_start e waited h = inr (refl, stopped≢serving)
  gate_start e creating (inl h) = inl h
  gate_start e creating (inr h) = inr (h.0, stopped≢serving)
  gate_start e created (inl h) = inl h
  gate_start e created (inr h) = inr (h.0, stopped≢serving)
  gate_start e finished h = tt

  gate_end :
      (e : Option E) (m : MainAt) (g : WorkerAt) → m ≢ serving → IsGated e stopped g → IsGated e m g
  gate_end e m waiting n h = tt
  gate_end e m waited n (inl h) = inl h
  gate_end e m waited n (inr h) = inr (h.0, n)
  gate_end e m creating n (inl h) = inl h
  gate_end e m creating n (inr h) = inr (h.0, n)
  gate_end e m created n (inl h) = inl h
  gate_end e m created n (inr h) = inr (h.0, n)
  gate_end e m finished n h = tt

  gate_kept :
      {p q : Process E}
      → Step start wait create p q
      → IsGated p.err p.main p.worker
      → IsGated q.err q.main q.worker
  gate_kept (start_returns {e} {g}) h = gate_start e g h
  gate_kept (main_fails {x} {g}) h = gate_end (some x) exits_with_failure g (λ e. cc) h
  gate_kept (main_returns {g}) h = gate_end none exits_with_success g (λ e. cc) h
  gate_kept (wait_returns a) h = inl refl
  gate_kept (worker_gives_up a) h = tt
  gate_kept (worker_goes_on a) (inl h) = inl (sym h)
  gate_kept (worker_goes_on a) (inr h) = inr (sym h.0, h.1)
  gate_kept (create_returns a) h = h
  gate_kept (worker_logs a) h = tt

  Reached-IsGated : {p : Process E} → Reached start wait create p → IsGated p.err p.main p.worker
  Reached-IsGated begins = tt
  Reached-IsGated (goes_on r s) = gate_kept s (Reached-IsGated r)

-- In every interleaving of `main` and its goroutine, the goroutine creates the default configuration
-- only if `waitForWebhookServer` returned no error, or `mgr.Start` has returned already and without
-- an error.
pub Reached-creating :
    {E : Type 0} (start wait create : Option E) (e : Option E) (m : MainAt)
    → Reached start wait create (process e m creating)
    → (wait ≡ none) ⊎ ((start ≡ none) × (m ≢ serving))
Reached-creating start wait create e m r = Reached-IsGated start wait create r
