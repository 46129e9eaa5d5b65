-- ===== src/Mesh/Retry/Schedule.antt =====
-- `send_with_retry` beside a list of attempts without counters.
use chiyocore.Base.{
  ℕ, ◌+◌, ◌≤◌, Bool, true, false, Option, none, List, [], ◌∷◌, ◌≡◌, refl, arith, if◌then◌else◌,
  length,
}
use chiyocore.Mesh.Monad.{Result, ok, err, panicked, blocked, Call, ◌>>=◌, ◌>>◌}
use chiyocore.Mesh.Retry.{Steps, retry_loop, send_with_retry}

module _ {P W : Type 0} (s : Steps P W) where
  -- The attempts of a list in turn, up to the first that is acknowledged, and `last` if none is.
  abbrev pub run : List (ℕ × Option P) → Call W (Unit {0}) → Call W (Unit {0})
  run [] last = last
  run ((attempt, path) ∷ rest) last =
      s.attempt attempt path >>= λ acked. if acked then (s.wake >> s.wake) else run rest last

  abbrev pub first_tries : Option P → List (ℕ × Option P)
  first_tries path = (0, path) ∷ (1, path) ∷ (2, path) ∷ []

  abbrev pub flooded_tries : List (ℕ × Option P)
  flooded_tries = (0, none) ∷ (1, none) ∷ (2, none) ∷ (3, none) ∷ []

  abbrev pub schedule : Option P → Call W (Unit {0})
  schedule path = run (first_tries path) (s.reset >> run flooded_tries s.wake)

  -- The loop is the schedule: attempts 0, 1 and 2 along the path that it was given, then the reset of
  -- the contact's path, then attempts 0 to 3 by flooding, and then the wake of the waiting task. An
  -- acknowledged attempt ends it with the task woken twice, and an error of a step ends it there. It
  -- needs no more fuel than it is given.
  pub send_with_retry-schedule :
      (path : Option P) (w : W) → send_with_retry s path w ≡ schedule path w
  unfolding send_with_retry retry_loop
  send_with_retry-schedule path w = refl

module _ {P W : Type 0} (s : Steps P W) (μ : W → ℕ) where
  -- The call adds at most `k` to the measure.
  abbrev Adds : {A : Type 0} → ℕ → Call W A → Type 0
  Adds k m = (w : W) → μ (m w).1 ≤ μ w + k

  Adds->>= :
      {A B : Type 0} (k l : ℕ) (m : Call W A) (f : A → Call W B)
      → Adds k m
      → ((a : A) → Adds l (f a))
      → Adds (k + l) (m >>= f)
  unfolding ◌>>=◌
  Adds->>= {A = A} {B = B} k l m f hm hf w = go (m w) (hm w)
    where
      go : (r : Result A × W) → μ r.1 ≤ μ w + k → μ (◌>>=◌ {B = B} (λ _. r) f w).1 ≤ μ w + (k + l)
      go (ok a, w') h = omega (arith, hf a w')
      go (err x, w') h = omega arith
      go (panicked, w') h = omega arith
      go (blocked, w') h = omega arith

  module _ (tries : (attempt : ℕ) (path : Option P) → Adds 1 (s.attempt attempt path))
      (wakes : Adds 0 s.wake) where
    if-Adds :
        (k : ℕ) (rest : Call W (Unit {0}))
        → Adds k rest
        → (acked : Bool) → Adds k (if acked then (s.wake >> s.wake) else rest)
    if-Adds k rest h true w = omega (arith, Adds->>= 0 0 s.wake (λ _. s.wake) wakes (λ _. wakes) w)
    if-Adds k rest h false w = h w

    run-Adds :
        (ts : List (ℕ × Option P)) (last : Call W (Unit {0})) (k : ℕ)
        → Adds k last
        → Adds (length ts + k) (run s ts last)
    run-Adds [] last k h w = omega (arith, h w)
    run-Adds ((a, p) ∷ ts) last k h w = omega (
      arith,
      Adds->>= 1 (length ts + k) (s.attempt a p)
          (λ acked. if acked then (s.wake >> s.wake) else run s ts last) (tries a p)
          (if-Adds (length ts + k) (run s ts last) (run-Adds ts last k h)) w,
    )

    flooded-Adds : Adds 4 (run s (flooded_tries s) s.wake)
    flooded-Adds = run-Adds (flooded_tries s) s.wake 0 wakes

    -- If an attempt adds at most one to a measure of the world, and the reset of the path and the wake
    -- add nothing, then `send_with_retry` adds at most seven.
    pub send_with_retry-at_most :
        (path : Option P) (w : W)
        → ((w' : W) → μ (s.reset w').1 ≤ μ w')
        → μ (send_with_retry s path w).1 ≤ μ w + 7
    send_with_retry-at_most path w resets = rw (send_with_retry-schedule s path w) (
        run-Adds (first_tries s path) (s.reset >> run s (flooded_tries s) s.wake) 4
          (Adds->>= 0 4 s.reset (λ _. run s (flooded_tries s) s.wake)
            (λ w'. omega (arith, resets w')) (λ _. flooded-Adds))
          w)
