-- ===== src/Main/Thread/Reported.antt =====
-- What the caller of a probe on a thread returns.
use lite_mcp.Base.{
  ℕ, Bool, true, false, List, [], ◌∷◌, ◌++◌, ◌≡◌, ◌⊎◌, inl, inr, refl, ap, sym, ◌∙◌, false≢true,
}
use lite_mcp.Base.Exec.{Result, ok, err}
use lite_mcp.Platform.Python.{Exception}
use lite_mcp.Main.Thread.{
  Thread, unstarted, running, ended, Caller, starting, joining, joined, returned, Run, initial,
  answer, reported, Step, start, report, die, tick, join, give_up, leave, Reach, here, next,
}

module _ (result : Result Exception Bool) where
  -- The list is written once, by the thread's last action.
  abbrev IsReported : List Bool → Thread → Type 0
  IsReported outcome thread = (outcome ≡ []) ⊎ ((outcome ≡ reported result ∷ []) × (thread ≡ ended))

  abbrev IsSound : Caller → List Bool → Thread → Type 0
  IsSound starting outcome thread = (outcome ≡ []) × (thread ≡ unstarted)
  IsSound (returned true) outcome thread = (reported result ≡ true) × (thread ≡ ended)
  IsSound _ outcome thread = Unit

  is_true : (r : Result Exception Bool) → reported r ≡ true → r ≡ ok true
  is_true (ok b) h = ap ok h
  is_true (err e) h = absurd (false≢true h)

  IsSound-report :
      (caller : Caller) (outcome : List Bool) (thread : Thread)
      → IsReported outcome thread
      → IsSound caller outcome thread
      → thread ≡ running
      → IsSound caller (outcome ++ reported result ∷ []) ended
  IsSound-report starting outcome thread r (e, u) h = cc
  IsSound-report (joining limit) outcome thread r i h = tt
  IsSound-report joined outcome thread r i h = tt
  IsSound-report (returned false) outcome thread r i h = tt
  IsSound-report (returned true) outcome thread r (e, u) h = cc

  sound_starting :
      (caller : Caller) (outcome : List Bool) (thread : Thread)
      → caller ≡ starting
      → IsSound caller outcome thread
      → outcome ≡ []
  sound_starting starting outcome thread h (e, u) = e
  sound_starting (joining limit) outcome thread h i = cc
  sound_starting joined outcome thread h i = cc
  sound_starting (returned b) outcome thread h i = cc

  IsSound-die :
      (caller : Caller) (outcome : List Bool) (thread : Thread)
      → IsSound caller outcome thread
      → thread ≡ running
      → IsSound caller outcome ended
  IsSound-die starting outcome thread (e, u) h = cc
  IsSound-die (joining limit) outcome thread i h = tt
  IsSound-die joined outcome thread i h = tt
  IsSound-die (returned false) outcome thread i h = tt
  IsSound-die (returned true) outcome thread (e, u) h = cc

  reported_report :
      (outcome : List Bool) (thread : Thread)
      → IsReported outcome thread
      → thread ≡ running
      → outcome ++ reported result ∷ [] ≡ reported result ∷ []
  reported_report outcome thread (inl e) h = ap (λ xs. xs ++ reported result ∷ []) e
  reported_report outcome thread (inr (e, u)) h = cc

  IsSound-leave :
      (b : Bool) (outcome : List Bool) (thread : Thread)
      → IsReported outcome thread
      → answer outcome ≡ b
      → IsSound (returned b) outcome thread
  IsSound-leave false outcome thread r h = tt
  IsSound-leave true outcome thread (inl e) h = cc
  IsSound-leave true outcome thread (inr (e, u)) h = (sym (ap answer e) ∙ h, u)

  IsInvariant : Run → Type 0
  IsInvariant s = IsReported s.outcome s.thread × IsSound s.caller s.outcome s.thread

  Step-IsInvariant : {s t : Run} → Step result s t → IsInvariant s → IsInvariant t
  unfolding IsInvariant
  Step-IsInvariant {s} (start h) (r, i) = (inl (sound_starting s.caller s.outcome s.thread h i), tt)
  Step-IsInvariant {s} (report h) (r, i) = (
    inr (reported_report s.outcome s.thread r h, refl),
    IsSound-report s.caller s.outcome s.thread r i h,
  )
  Step-IsInvariant {s} (die h) (inl e, i) = (inl e, IsSound-die s.caller s.outcome s.thread i h)
  Step-IsInvariant {s} (die h) (inr (e, u), i) = cc
  Step-IsInvariant tick i = i
  Step-IsInvariant (join limit h e) (r, i) = (r, tt)
  Step-IsInvariant (give_up limit h e) (r, i) = (r, tt)
  Step-IsInvariant {s} (leave h) (r, i) = (r, IsSound-leave _ s.outcome s.thread r refl)

  Reach-IsInvariant : {s t : Run} → Reach result s t → IsInvariant s → IsInvariant t
  Reach-IsInvariant here i = i
  Reach-IsInvariant (next r step) i = Step-IsInvariant step (Reach-IsInvariant r i)

  sound_true :
      (caller : Caller) (outcome : List Bool) (thread : Thread)
      → IsSound caller outcome thread
      → caller ≡ returned true
      → (result ≡ ok true) × (thread ≡ ended)
  sound_true starting outcome thread i h = cc
  sound_true (joining limit) outcome thread i h = cc
  sound_true joined outcome thread i h = cc
  sound_true (returned false) outcome thread i h = cc
  sound_true (returned true) outcome thread (e, u) h = (is_true result e, u)

  -- In every interleaving the caller returns true only if the probe ended with true, and before it.
  pub true-IsReported :
      (now : ℕ) (s : Run)
      → Reach result (initial now) s
      → s.caller ≡ returned true
      → (result ≡ ok true) × (s.thread ≡ ended)
  unfolding IsInvariant
  true-IsReported now s r h =
      let (_, i) = Reach-IsInvariant r (inl refl, (refl, refl)) in
      sound_true s.caller s.outcome s.thread i h
