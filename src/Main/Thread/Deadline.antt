-- ===== src/Main/Thread/Deadline.antt =====
-- By when the caller of a probe on a thread can return.
use lite_mcp.Base.{ℕ, zero, suc, ◌+◌, ◌-◌, max, Bool, ◌≡◌, refl, ◌∙◌, arith}
use lite_mcp.Base.Exec.{Result}
use lite_mcp.Platform.Python.{Exception}
use lite_mcp.Main.Thread.{
  running, Caller, starting, joining, joined, returned, Run, join_timeout, start, tick, give_up,
  leave, Reach, here, next,
}

-- The latest time at which the caller can have returned.
abbrev pub return_by : Caller → ℕ → ℕ
return_by starting clock = clock + join_timeout
return_by (joining limit) clock = max limit clock
return_by joined clock = clock
return_by (returned b) clock = clock

module _ (result : Result Exception Bool) where
  Reach-trans : {s t u : Run} → Reach result s t → Reach result t u → Reach result s u
  Reach-trans r here = r
  Reach-trans r (next q step) = next (Reach-trans r q) step

  -- A while in which nothing happens.
  waits :
      (n : ℕ) (s : Run)
      → (t : Run) × Reach result s t
        × (t.caller ≡ s.caller)
        × (t.outcome ≡ s.outcome)
        × (t.clock ≡ n + s.clock)
  waits zero s = (s, here, refl, refl, omega arith)
  waits (suc n) s =
      let (t, r, c, o, k) = waits n s in
      (record t { clock = suc t.clock }, next r tick, c, o, omega (arith, k))

  abbrev pub CanReturn : Run → ℕ → Type 0
  CanReturn s time =
      (t : Run) × (b : Bool) × Reach result s t
      × (t.caller ≡ returned b)
      × (t.outcome ≡ s.outcome)
      × (t.clock ≡ time)

  leaves : (s : Run) → s.caller ≡ joined → CanReturn s s.clock
  leaves s h = (_, _, next here (leave h), refl, refl, refl)

  joins : (s : Run) (limit : ℕ) → s.caller ≡ joining limit → CanReturn s (max limit s.clock)
  joins s limit h =
      let (t, r, c, o, k) = waits (limit - s.clock) s in
      let late = next r (give_up limit (c ∙ h) (omega (arith, k))) in
      (_, _, next late (leave refl), refl, o, omega (arith, k))

  starts : (s : Run) → s.caller ≡ starting → CanReturn s (s.clock + join_timeout)
  starts s h =
      let begun = record s { thread = running; caller = joining (s.clock + join_timeout) } in
      let (t, b, r, c, o, k) = joins begun (s.clock + join_timeout) refl in
      (t, b, Reach-trans (next here (start h)) r, c, o, omega (arith, k))

  from_caller :
      (s : Run) (caller : Caller) → s.caller ≡ caller → CanReturn s (return_by caller s.clock)
  from_caller s starting h = starts s h
  from_caller s (joining limit) h = joins s limit h
  from_caller s joined h = leaves s h
  from_caller s (returned b) h = (s, b, here, h, refl, refl)

  -- From every state the caller can return by the limit of its join, also where the thread does
  -- nothing any more.
  can_return : (s : Run) → CanReturn s (return_by s.caller s.clock)
  can_return s = from_caller s s.caller refl
