-- ===== src/Ui/Splash.antt =====
-- src/client/ui/ASCIISplash.cpp: the timer of the splash screen and its progress bar.
use nullchat.Base.{
  ℕ, zero, suc, ◌+◌, ◌*◌, ◌≤◌, ◌<◌, inl, inr, Bool-cases, ◌≡◌, refl, ap, Bool, true, false, ltb,
  if◌then◌else◌, arith,
}

-- `value` is what the progress bar shows, `running` says that the timer is active, and `finished`
-- counts how often the signal has been emitted.
pub record Splash : Type 0 where
  pub step : ℕ
  pub value : ℕ
  pub running : Bool
  pub finished : ℕ

abbrev pub new_splash : Splash
new_splash = record { step = 0; value = 0; running = false; finished = 0 }

unfoldable pub start : Splash → Splash
start s = record s { step = 0; value = 0; running = true }

-- One period of the timer, which does nothing when it is stopped.
unfoldable pub timeout : Splash → Splash
timeout s =
    if s.running
    then (if ltb 100 (s.step + 5)
        then record s { step = s.step + 5; running = false; finished = suc s.finished }
        else record s { step = s.step + 5; value = s.step + 5 })
    else s

unfoldable pub timeouts : ℕ → Splash → Splash
unfolding timeout
timeouts zero s = s
timeouts (suc n) s = timeout (timeouts n s)

-- The state while the timer runs, and when it has stopped.
running_lem :
    (n : ℕ) (s : Splash)
    → n ≤ 20
    → timeouts n (start s) ≡ record s { step = 5 * n; value = 5 * n; running = true }
unfolding timeouts start timeout
running_lem zero s h = refl
running_lem (suc n) s h = let before = running_lem n s (omega arith) in rw before (ground arith)

stopped_lem :
    (n : ℕ) (s : Splash)
    → 20 < n
    → timeouts n (start s)
      ≡ record s { step = 105; value = 100; running = false; finished = suc s.finished }
unfolding timeouts timeout
stopped_lem zero s h = absurd (omega arith)
stopped_lem (suc n) s h = elim (Bool-cases (ltb 20 n)) [
  | inl later ↦ ap timeout (stopped_lem n s (ground arith))
  | inr last ↦
      let twenty : n ≡ 20 = ground arith in rw (running_lem n s (ground arith), twenty) refl
]

-- The splash always ends, and once: whatever state it is started in, the bar shows no more than 100,
-- the timer runs for twenty periods with nothing emitted, and from the next one on it has stopped and
-- `finished` has been emitted exactly once.
pub timeouts-start :
    (n : ℕ) (s : Splash)
    → let s' = timeouts n (start s) in
      (s'.value ≤ 100)
      × (n ≤ 20 → (s'.running ≡ true) × (s'.finished ≡ s.finished))
      × (20 < n → (s'.running ≡ false) × (s'.finished ≡ suc s.finished))
timeouts-start n s = elim (Bool-cases (ltb 20 n)) [
  | inl late ↦
      rw (stopped_lem n s (ground arith))
        (omega arith, λ h. absurd (ground arith), λ h. (refl, refl))
  | inr early ↦
      rw (running_lem n s (ground arith))
        (ground arith, λ h. (refl, refl), λ h. absurd (ground arith))
]
