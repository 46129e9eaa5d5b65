-- ===== src/Lora/Backoff.antt =====
-- The search for a free channel: how often it waits, and for how long.
use chiyocore.Base.{
  ℕ, zero, suc, ◌+◌, ◌-◌, ◌*◌, ◌^◌, ◌≤◌, ◌<◌, ◌≡◌, arith, Bool, true, false, Bool-cases, Option,
  none, some, List, [], ◌∷◌, ◌++◌, inl, inr, ltb, ltb→lt, length, length-append,
}
use native.Mathlib.Nat.{mul-le-mul_right}
use chiyocore.Hal.Outcome.{Outcome, ok, err, panicked, blocked, Action}
use chiyocore.Lora.{
  Driver, Radio, backoff, back_off, cad_loop, cad_check, drive, ask, ◌>>=◌, of_bool, of_option,
}

-- What a call that does not panic or wait for ever leaves, when it succeeds and when it fails.
module _ {S : Type 0} where
  abbrev pub Ends : {A : Type 0} → (A → S → Type 0) → (S → Type 0) → Outcome A × S → Type 0
  Ends post failed (ok a, s) = post a s
  Ends post failed (err e, s) = failed s
  Ends post failed (panicked, s) = true ≡ false
  Ends post failed (blocked, s) = true ≡ false

  pub Ends->>= :
      {A B : Type 0} (mid : A → S → Type 0) (post : B → S → Type 0) (failed : S → Type 0)
      (m : Action S A) (f : A → Action S B) (s : S)
      → Ends mid failed (m s)
      → ((a : A) (s' : S) → mid a s' → Ends post failed (f a s'))
      → Ends post failed ((m >>= f) s)
  unfolding ◌>>=◌
  Ends->>= {A = A} {B = B} mid post failed m f s first next = go (m s) first
    where
      go : (r : Outcome A × S) → Ends mid failed r → Ends post failed (◌>>=◌ {B = B} (λ _. r) f s)
      go (ok a, s') p = next a s' p
      go (err e, s') p = p
      go (panicked, s') p = absurd (ground arith)
      go (blocked, s') p = absurd (ground arith)

abbrev pub sum : List ℕ → ℕ
sum [] = 0
sum (n ∷ ns) = n + sum ns

sum-append : (xs : List ℕ) (n : ℕ) → sum (xs ++ n ∷ []) ≡ sum xs + n
sum-append [] n = omega arith
sum-append (x ∷ xs) n = omega (arith, sum-append xs n)

-- The longest waits of so many tries.
unfoldable pub budget : ℕ → ℕ
budget zero = 0
budget (suc tries) = budget tries + 199 * tries ^ 2

suc_sub : (n : ℕ) → suc n - 1 ≡ n
suc_sub n = omega arith

backoff_bound : (jitter tries : ℕ) → jitter < 200 → backoff jitter (suc tries) ≤ 199 * tries ^ 2
unfolding backoff
backoff_bound jitter tries h =
    rw (suc_sub tries) (omega (arith, mul-le-mul_right (tries ^ 2) below))
  where
    below : jitter ≤ 199
    below = omega arith

budget_bound : (tries : ℕ) → tries ≤ 5 → budget tries ≤ 5970
unfolding budget
budget_bound zero h = omega arith
budget_bound (suc zero) h = omega arith
budget_bound (suc (suc zero)) h = omega arith
budget_bound (suc (suc (suc zero))) h = omega arith
budget_bound (suc (suc (suc (suc zero)))) h = omega arith
budget_bound (suc (suc (suc (suc (suc zero))))) h = omega arith
budget_bound (suc (suc (suc (suc (suc (suc n)))))) h = absurd (omega arith)

-- `random_range` of the crate rand: a number in the range, its end excluded.
pub record IsRandom {D : Type 0} (d : Driver D) : Type 0 where
  pub in_range :
      (a b : ℕ) (s : D) → a < b → (a ≤ (d.random_range a b s).0) × ((d.random_range a b s).0 < b)

module _ {D : Type 0} (d : Driver D) (random : IsRandom d) (start : Radio D) where
  -- So many waits more than at the start, and so much time.
  abbrev pub Waited : ℕ → Radio D → Type 0
  Waited tries w =
      (length w.waits ≤ length start.waits + tries) × (sum w.waits ≤ sum start.waits + budget tries)

  -- Not more than five waits.
  abbrev pub Cleared : Radio D → Type 0
  Cleared w = (length w.waits ≤ length start.waits + 5) × (sum w.waits ≤ sum start.waits + 5970)

  Waited-Cleared : (tries : ℕ) (w : Radio D) → tries ≤ 5 → Waited tries w → Cleared w
  Waited-Cleared tries w h (count, time) = (omega arith, omega (arith, budget_bound tries h))

  drive-Waited :
      (tries : ℕ) (f : D → Bool × D) (w : Radio D)
      → tries ≤ 5
      → Waited tries w
      → Ends (λ _. Waited tries) Cleared (drive f w)
  drive-Waited tries f w h v = go (f w.driver).0
    where
      go :
          (b : Bool)
          → Ends (λ _. Waited tries) Cleared (of_bool b, record w { driver = (f w.driver).1 })
      go true = v
      go false = Waited-Cleared tries w h v

  ask-Waited :
      {A : Type 0} (tries : ℕ) (f : D → Option A × D) (w : Radio D)
      → tries ≤ 5
      → Waited tries w
      → Ends {A = A} (λ _. Waited tries) Cleared (ask f w)
  ask-Waited {A = A} tries f w h v = go (f w.driver).0
    where
      go :
          (o : Option A)
          → Ends (λ _. Waited tries) Cleared (of_option o, record w { driver = (f w.driver).1 })
      go (some a) = v
      go none = Waited-Cleared tries w h v

  -- A longer wait than the last ones.
  after_millis-Waited :
      (tries jitter : ℕ) (w : Radio D)
      → jitter < 200
      → Waited tries w
      → Waited (suc tries) (record w { waits = w.waits ++ backoff jitter (suc tries) ∷ [] })
  unfolding budget
  after_millis-Waited tries jitter w small (count, time) = (
    omega (arith, length-append w.waits (backoff jitter (suc tries) ∷ [])),
    omega
        (arith, sum-append w.waits (backoff jitter (suc tries)), backoff_bound jitter tries small),
  )

  back_off-Cleared :
      (tries : ℕ) (rest : Action (Radio D) (Unit {0})) (busy : Bool) (w : Radio D)
      → tries ≤ 5
      → Waited tries w
      → ((w' : Radio D) → Waited (suc tries) w' → Ends (λ _. Cleared) Cleared (rest w'))
      → Ends (λ _. Cleared) Cleared (back_off d (suc tries) rest busy w)
  unfolding back_off
  back_off-Cleared tries rest false w h v next = Waited-Cleared tries w h v
  back_off-Cleared tries rest true w h v next =
      Ends->>= (λ jitter w1. (jitter < 200) × Waited tries w1) (λ _. Cleared) Cleared _ _ w
        ((random.in_range 50 200 w.driver (omega arith)).1, v)
        λ jitter w1 drawn.
          Ends->>= (λ _. Waited (suc tries)) (λ _. Cleared) Cleared _ _ w1
            (after_millis-Waited tries jitter w1 drawn.0 drawn.1) λ _ w2 v2. next w2 v2

  cad_loop-Cleared :
      (fuel tries : ℕ) (w : Radio D)
      → tries ≤ 5
      → 5 < fuel + tries
      → Waited tries w
      → Ends (λ _. Cleared) Cleared (cad_loop d fuel tries w)
  unfolding cad_loop
  cad_loop-Cleared zero tries w h enough v = absurd (omega arith)
  cad_loop-Cleared (suc fuel) tries w h enough v = elim (Bool-cases (ltb tries 5)) [
    | inl more ↦ rw more (
        Ends->>= (λ _. Waited tries) (λ _. Cleared) Cleared _ _ w
          (drive-Waited tries d.prepare_for_cad w h v)
          λ _ w1 v1.
            Ends->>= (λ _. Waited tries) (λ _. Cleared) Cleared _ _ w1
              (ask-Waited tries d.cad w1 h v1)
              λ busy w2 v2.
                back_off-Cleared tries (cad_loop d fuel (suc tries)) busy w2 h v2 λ w3 v3.
                  cad_loop-Cleared fuel (suc tries) w3 (ltb→lt tries 5 more) (omega arith) v3)
    | inr last ↦ rw last (Waited-Cleared tries w h v)
  ]

  -- The search for a free channel ends within its fuel, also if the channel is never free: it returns Ok,
  -- or the driver's error, after at most five waits of at most 5970 milliseconds together.
  pub cad_check-Cleared : Ends (λ _. Cleared) Cleared (cad_check d start)
  unfolding cad_check budget
  cad_check-Cleared =
      cad_loop-Cleared 6 0 start (omega arith) (omega arith) (omega arith, omega arith)
