-- ===== src/Mesh/Monad.antt =====
-- Calls of a mesh node: the node's state beside the state of the layers that run on it, and
-- `CompanionResult`. A call that fails keeps what was changed before.
use chiyocore.Base.{Option, none, some, ◌≡◌, refl, ap, arith}
use chiyocore.Hal.Outcome.{Outcome}
use chiyocore.Hal.Filesystem.{Fs}
use chiyocore.Storage.Contacts.{CachedContact}
use chiyocore.Mesh.Types.{CompanionError, firmware, Node}
use chiyocore.Base.{List}

pub data Result (A : Type 0) : Type 0 where
  ok : A → Result A
  err : CompanionError → Result A
  panicked : Result A
  blocked : Result A

-- The node and the layers' state `L`.
abbrev pub World : Type 0 → Type 0 → Type 0 → Type 0
World P S L = Node P S × L

-- `?` on a `FirmwareResult`.
abbrev pub of_outcome : {A : Type 0} → Outcome A → Result A
of_outcome (Outcome.ok a) = ok a
of_outcome (Outcome.err e) = err (firmware e)
of_outcome Outcome.panicked = panicked
of_outcome Outcome.blocked = blocked

abbrev pub Call : Type 0 → Type 0 → Type 0
Call W A = W → Result A × W

module _ {W : Type 0} where
  abbrev pub pure : {A : Type 0} → A → Call W A
  pure a w = (ok a, w)

  abbrev pub throw : {A : Type 0} → CompanionError → Call W A
  throw e w = (err e, w)

  abbrev pub panic : {A : Type 0} → Call W A
  panic w = (panicked, w)

  infixl 5 ◌>>=◌ ◌>>◌
  unfoldable pub ◌>>=◌ : {A B : Type 0} → Call W A → (A → Call W B) → Call W B
  ◌>>=◌ m f w =
      let (r, w') = m w in
      elim r [
        | ok a ↦ f a w'
        | err e ↦ (err e, w')
        | panicked ↦ (panicked, w')
        | blocked ↦ (blocked, w')
      ]

  abbrev pub ◌>>◌ : {B : Type 0} → Call W (Unit {0}) → Call W B → Call W B
  m >> k = m >>= λ _. k

  abbrev pub or_throw : {A : Type 0} → Option A → CompanionError → Call W A
  or_throw none e = throw e
  or_throw (some a) e = pure a

  abbrev pub or_panic : {A : Type 0} → Option A → Call W A
  or_panic none = panic
  or_panic (some a) = pure a

  -- A result that is computed without the state.
  abbrev pub lift : {A : Type 0} → Result A → Call W A
  lift r w = (r, w)

module _ {P S L : Type 0} where
  abbrev pub gets : {A : Type 0} → (Node P S → A) → Call (World P S L) A
  gets f w = (ok (f w.0), w)

  abbrev pub modify : (Node P S → Node P S) → Call (World P S L) (Unit {0})
  modify f w = (ok tt, (f w.0, w.1))

  -- A call that changes the node and answers a value of its own.
  abbrev pub state : {A : Type 0} → (Node P S → A × Node P S) → Call (World P S L) A
  state f w = let (a, n) = f w.0 in (ok a, (n, w.1))

  -- A call of the contact store, through the node's cache and flash.
  abbrev pub on_contacts :
      {A : Type 0}
      → (List (CachedContact P) × Fs S → Outcome A × (List (CachedContact P) × Fs S))
      → Call (World P S L) A
  on_contacts f (n, l) =
      let (r, (cs, fs)) = f (n.contacts, n.fs) in
      (of_outcome r, (record n { contacts = cs; fs = fs }, l))

  abbrev pub on_fs : {A : Type 0} → (Fs S → Outcome A × Fs S) → Call (World P S L) A
  on_fs f (n, l) = let (r, fs) = f n.fs in (of_outcome r, (record n { fs = fs }, l))

-- A successful bind as its two steps.
pub >>=-ok :
    {W A B : Type 0} (m : Call W A) (f : A → Call W B) (w : W) {b : B} {w'' : W}
    → (m >>= f) w ≡ (ok b, w'')
    → (a : A) × (w' : W) × (m w ≡ (ok a, w')) × (f a w' ≡ (ok b, w''))
unfolding ◌>>=◌
>>=-ok {W = W} {A = A} {B = B} m f w {b} {w''} h = go (m w) refl h
  where
    go :
        (r : Result A × W)
        → m w ≡ r
        → ◌>>=◌ {B = B} (λ _. r) f w ≡ (ok b, w'')
        → (a : A) × (w' : W) × (m w ≡ (ok a, w')) × (f a w' ≡ (ok b, w''))
    go (ok a, w') e k = (a, w', e, k)
    go (err x, w') e k = absurd (ground arith)
    go (panicked, w') e k = absurd (ground arith)
    go (blocked, w') e k = absurd (ground arith)

-- A value that was there.
pub or_throw-ok :
    {W A : Type 0} (o : Option A) (x : CompanionError) (w w' : W) {a : A}
    → or_throw o x w ≡ (ok a, w')
    → w ≡ w'
or_throw-ok none x w w' h = absurd (ground arith)
or_throw-ok (some a) x w w' h = ap (λ r. r.1) h

pub or_panic-ok :
    {W A : Type 0} (o : Option A) (w w' : W) {a : A} → or_panic o w ≡ (ok a, w') → w ≡ w'
or_panic-ok none w w' h = absurd (ground arith)
or_panic-ok (some a) w w' h = ap (λ r. r.1) h
