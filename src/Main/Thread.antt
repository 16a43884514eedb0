-- ===== src/Main/Thread.antt =====
-- `_run_async_probe` of backend/src/litemcp/main.py inside a running event loop: the thread of the
-- probe, the caller that joins it, and the clock, one step of any of them at a time. What the probe
-- gives on a loop of its own is a parameter. The thread may end without an entry in `outcome`, since
-- its `except` lets a `BaseException` through.
pub mod Reported
pub mod Deadline
use lite_mcp.Base.{
  ℕ, zero, suc, ◌+◌, ◌-◌, ◌≤◌, max, Bool, true, false, List, [], ◌∷◌, ◌++◌, ◌≡◌, ◌⊎◌, inl, inr,
  refl, ap, sym, ◌∙◌, arith, false≢true,
}
use lite_mcp.Base.Exec.{Result, ok, err}
use lite_mcp.Platform.Python.{Exception}
use lite_mcp.Main.{probe_timeout}

pub data Thread : Type 0 where
  unstarted running ended : Thread

-- Where the caller is; a join has the time at which it gives up.
pub data Caller : Type 0 where
  starting : Caller
  joining : ℕ → Caller
  joined : Caller
  returned : Bool → Caller

pub record Run : Type 0 where
  pub outcome : List Bool
  pub thread : Thread
  pub caller : Caller
  pub clock : ℕ

abbrev pub initial : ℕ → Run
initial now = record { outcome = []; thread = unstarted; caller = starting; clock = now }

-- `bool(outcome) and outcome[0]`
abbrev pub answer : List Bool → Bool
answer [] = false
answer (b ∷ bs) = b

-- What `_target` appends.
abbrev pub reported : Result Exception Bool → Bool
reported (ok b) = b
reported (err e) = false

-- `thread.join(timeout=_PROBE_TIMEOUT + 1.0)`
abbrev pub join_timeout : ℕ
join_timeout = probe_timeout + 1000

module _ (result : Result Exception Bool) where
  pub data Step (s : Run) : Run → Type 0 where
    start :
        s.caller ≡ starting
        → Step s (record s { thread = running; caller = joining (s.clock + join_timeout) })
    report :
        s.thread ≡ running
        → Step s (record s { outcome = s.outcome ++ reported result ∷ []; thread = ended })
    die : s.thread ≡ running → Step s (record s { thread = ended })
    tick : Step s (record s { clock = suc s.clock })
    join :
        (limit : ℕ)
        → s.caller ≡ joining limit
        → s.thread ≡ ended
        → Step s (record s { caller = joined })
    give_up :
        (limit : ℕ)
        → s.caller ≡ joining limit
        → limit ≤ s.clock
        → Step s (record s { caller = joined })
    leave : s.caller ≡ joined → Step s (record s { caller = returned (answer s.outcome) })

  pub data Reach (s : Run) : Run → Type 0 where
    here : Reach s s
    next : {t u : Run} → Reach s t → Step t u → Reach s u
