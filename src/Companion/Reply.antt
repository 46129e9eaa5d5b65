-- ===== src/Companion/Reply.antt =====
-- What a call of `CompanionHandler` comes to: `CompanionProtoResult`, whose `Err` carries no code on any
-- path of the repository, a panic, or a wait for ever. A call that fails keeps what was changed before.
use chiyocore.Base.{Option, none, some, ◌≡◌, refl, arith, ap}
use chiyocore.Mesh.Monad.{Result, Call}
use chiyocore.Mesh.Monad

pub data Reply (A : Type 0) : Type 0 where
  done : A → Reply A
  refused : Reply A
  panicked : Reply A
  blocked : Reply A

abbrev pub Handler : Type 0 → Type 0 → Type 0
Handler W A = W → Reply A × W

-- `?` on a `CompanionResult` or `FirmwareResult`: `From<CompanionError>` and `From<FirmwareError>` of
-- firmware/chiyocore/src/lib.rs and firmware/chiyo-hal/src/lib.rs drop the error.
abbrev pub of_result : {A : Type 0} → Result A → Reply A
of_result (Monad.Result.ok a) = done a
of_result (Monad.Result.err e) = refused
of_result Monad.Result.panicked = panicked
of_result Monad.Result.blocked = blocked

module _ {W : Type 0} where
  abbrev pub pure : {A : Type 0} → A → Handler W A
  pure a w = (done a, w)

  infixl 5 ◌>>=◌ ◌>>◌
  unfoldable pub ◌>>=◌ : {A B : Type 0} → Handler W A → (A → Handler W B) → Handler W B
  ◌>>=◌ m f w =
      let (r, w') = m w in
      elim r [
        | done a ↦ f a w'
        | refused ↦ (refused, w')
        | panicked ↦ (panicked, w')
        | blocked ↦ (blocked, w')
      ]

  abbrev pub ◌>>◌ : {B : Type 0} → Handler W (Unit {0}) → Handler W B → Handler W B
  m >> k = m >>= λ _. k

  abbrev pub call : {A : Type 0} → Call W A → Handler W A
  call m w = let (r, w') = m w in (of_result r, w')

  -- `else { return Err(responses::Err { code: None }) }`.
  abbrev pub or_refuse : {A : Type 0} → Option A → Handler W A
  or_refuse none w = (refused, w)
  or_refuse (some a) w = (done a, w)

  abbrev pub or_panic : {A : Type 0} → Option A → Handler W A
  or_panic none w = (panicked, w)
  or_panic (some a) w = (done a, w)

  abbrev pub refuse : {A : Type 0} → Handler W A
  refuse w = (refused, w)

-- A bind whose first step is known.
pub >>=-step :
    {W A B : Type 0} (m : Handler W A) (f : A → Handler W B) (w : W) {a : A} {w' : W}
    → m w ≡ (done a, w')
    → (m >>= f) w ≡ f a w'
unfolding ◌>>=◌
>>=-step {B = B} m f w e = ap (λ r. ◌>>=◌ {B = B} (λ _. r) f w) e

-- A successful bind as its two steps.
pub >>=-done :
    {W A B : Type 0} (m : Handler W A) (f : A → Handler W B) (w : W) {b : B} {w'' : W}
    → (m >>= f) w ≡ (done b, w'')
    → (a : A) × (w' : W) × (m w ≡ (done a, w')) × (f a w' ≡ (done b, w''))
unfolding ◌>>=◌
>>=-done {W = W} {A = A} {B = B} m f w {b} {w''} h = go (m w) refl h
  where
    go :
        (r : Reply A × W)
        → m w ≡ r
        → ◌>>=◌ {B = B} (λ _. r) f w ≡ (done b, w'')
        → (a : A) × (w' : W) × (m w ≡ (done a, w')) × (f a w' ≡ (done b, w''))
    go (done a, w') e k = (a, w', e, k)
    go (refused, w') e k = absurd (ground arith)
    go (panicked, w') e k = absurd (ground arith)
    go (blocked, w') e k = absurd (ground arith)

-- A bind whose second step only answers.
pub >>=-pure :
    {W A B : Type 0} (m : Handler W A) (b : B) (w : W)
    → (((m >>= λ _. pure b) w).1 ≡ (m w).1)
      × ((m w).0 ≡ blocked → ((m >>= λ _. pure b) w).0 ≡ blocked)
unfolding ◌>>=◌
>>=-pure {W = W} {A = A} m b w = go (m w)
  where
    go :
        (r : Reply A × W)
        → ((((λ _. r) >>= λ _. pure b) w).1 ≡ r.1)
          × (r.0 ≡ blocked → (((λ _. r) >>= λ _. pure b) w).0 ≡ blocked)
    go (done a, w') = (refl, λ h. absurd (ground arith))
    go (refused, w') = (refl, λ h. absurd (ground arith))
    go (panicked, w') = (refl, λ h. absurd (ground arith))
    go (blocked, w') = (refl, λ h. refl)

-- A property of the state that a call keeps, however it ends.
module _ {W : Type 0} (I : W → Type 0) where
  abbrev pub Keeps : {A : Type 0} → Handler W A → Type 0
  Keeps m = (w : W) → I w → I (m w).1

  pub Keeps->>= :
      {A B : Type 0} (m : Handler W A) (f : A → Handler W B)
      → Keeps m
      → ((a : A) → Keeps (f a))
      → Keeps (m >>= f)
  unfolding ◌>>=◌
  Keeps->>= {A = A} {B = B} m f km kf w i = go (m w) (km w i)
    where
      go : (r : Reply A × W) → I r.1 → I (◌>>=◌ {B = B} (λ _. r) f w).1
      go (done a, w') j = kf a w' j
      go (refused, w') j = j
      go (panicked, w') j = j
      go (blocked, w') j = j

  pub Keeps-or_refuse : {A : Type 0} (o : Option A) → Keeps (or_refuse o)
  Keeps-or_refuse none w i = i
  Keeps-or_refuse (some a) w i = i

  pub Keeps-or_panic : {A : Type 0} (o : Option A) → Keeps (or_panic o)
  Keeps-or_panic none w i = i
  Keeps-or_panic (some a) w i = i
