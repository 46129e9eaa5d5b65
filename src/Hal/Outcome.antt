-- ===== src/Hal/Outcome.antt =====
-- What a call of an async firmware function can come to. `FirmwareError` stands in
-- firmware/chiyo-hal/src/lib.rs; the payloads of its variants are dropped.
use chiyocore.Base.{Option, none, some, ◌≡◌, refl, ap, arith}

pub data FirmwareError : Type 0 where
  lora postcard sequential_storage : FirmwareError

-- `panicked` is a failed `unwrap`; `blocked` is a future that waits for ever.
pub data Outcome {ℓ} (A : Type ℓ) : Type ℓ where
  ok : A → Outcome A
  err : FirmwareError → Outcome A
  panicked : Outcome A
  blocked : Outcome A

-- A stateful call: the state comes back on every path.
abbrev pub Action : Type 0 → Type 0 → Type 0
Action S A = S → Outcome A × S

module _ {S : Type 0} where
  abbrev pub pure : {A : Type 0} → A → Action S A
  pure a s = (ok a, s)

  abbrev pub throw : {A : Type 0} → FirmwareError → Action S A
  throw e s = (err e, s)

  abbrev pub panic : {A : Type 0} → Action S A
  panic s = (panicked, s)

  infixl 5 ◌>>=◌ ◌>>◌
  abbrev pub ◌>>=◌ : {A B : Type 0} → Action S A → (A → Action S B) → Action S B
  ◌>>=◌ m f s =
      let (r, s') = m s in
      elim r [
        | ok a ↦ f a s'
        | err e ↦ (err e, s')
        | panicked ↦ (panicked, s')
        | blocked ↦ (blocked, s')
      ]

  abbrev pub ◌>>◌ : {B : Type 0} → Action S (Unit {0}) → Action S B → Action S B
  m >> k = m >>= λ _. k

  -- `.map_err(…)?` on an `Option`-like result.
  abbrev pub or_throw : {A : Type 0} → Option A → FirmwareError → Action S A
  or_throw none e = throw e
  or_throw (some a) e = pure a

-- `unwrap` of a result, and of a call's.
abbrev pub unwrap : {A : Type 0} → Outcome A → Outcome A
unwrap (err e) = panicked
unwrap r = r

abbrev pub unwrapped : {S A : Type 0} → Action S A → Action S A
unwrapped m s = let (r, s') = m s in (unwrap r, s')

abbrev pub or_panic : {S A : Type 0} → Option A → Action S A
or_panic none = panic
or_panic (some a) = pure a

pub unwrapped-step :
    {S A : Type 0} (m : Action S A) (s : S) {a : A} {s' : S}
    → m s ≡ (ok a, s')
    → unwrapped m s ≡ (ok a, s')
unwrapped-step {S = S} {A = A} m s e = ap (λ (r : Outcome A × S). (unwrap r.0, r.1)) e

-- A call whose result is unwrapped has succeeded if it returns.
pub unwrapped-ok :
    {S A : Type 0} (m : Action S A) (s : S) {a : A} {s' : S}
    → unwrapped m s ≡ (ok a, s')
    → m s ≡ (ok a, s')
unwrapped-ok {S = S} {A = A} m s {a} {s'} h = go (m s) h
  where
    go : (r : Outcome A × S) → ◌≡◌ {A = Outcome A × S} (unwrap r.0, r.1) (ok a, s') → r ≡ (ok a, s')
    go (ok b, t) h = h
    go (err x, t) h = absurd (ground arith)
    go (panicked, t) h = absurd (ground arith)
    go (blocked, t) h = absurd (ground arith)

-- A successful bind as its two steps.
pub >>=-ok :
    {S A B : Type 0} (m : Action S A) (f : A → Action S B) (s : S) {b : B} {s'' : S}
    → (m >>= f) s ≡ (ok b, s'')
    → (a : A) × (s' : S) × (m s ≡ (ok a, s')) × (f a s' ≡ (ok b, s''))
>>=-ok {S = S} {A = A} {B = B} m f s {b} {s''} h = go (m s) refl h
  where
    go :
        (r : Outcome A × S)
        → m s ≡ r
        → ◌>>=◌ {B = B} (λ _. r) f s ≡ (ok b, s'')
        → (a : A) × (s' : S) × (m s ≡ (ok a, s')) × (f a s' ≡ (ok b, s''))
    go (ok a, s') e k = (a, s', e, k)
    go (err x, s') e k = absurd (ground arith)
    go (panicked, s') e k = absurd (ground arith)
    go (blocked, s') e k = absurd (ground arith)

-- A bind whose first step is known.
pub >>=-step :
    {S A B : Type 0} (m : Action S A) (f : A → Action S B) (s : S) {a : A} {s' : S}
    → m s ≡ (ok a, s')
    → (m >>= f) s ≡ f a s'
>>=-step {B = B} m f s e = ap (λ r. ◌>>=◌ {B = B} (λ _. r) f s) e
