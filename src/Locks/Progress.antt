-- ===== src/Locks/Progress.antt =====
-- In every interleaving of the tasks, one that holds a lock and waits for none, or whose lock is free.
use chiyocore.Base.{
  ℕ, ◌<◌, ◌≡◌, refl, sym, subst, arith, Bool, true, false, ◌||◌, Option, none, some, Bool-cases,
  Option-cases, inl, inr, ◌⊎◌,
}
use chiyocore.Locks.{
  Grants, IsLawful, Mode, reading, writing, Store, contacts, channels, layer_lock, store_lock,
  own_lock, is_own, role_asks, receive_asks, serve_asks, retry_asks, Role, receive, serve, retry,
  Want, mesh_lock, Task, Event, ask, grant, drop_store, drop_mesh, drop_layer, is_some, asks,
  granted, perform, may_drop_mesh, clear, Reach,
}
use chiyocore.Locks.Order.{Awaited}
use chiyocore.Locks.Sound.{search, clear_of, IsSound, reach-IsSound}
use chiyocore.Locks.Waits.{
  store_waits, mesh_waits, layer_waits, clashes-store, clashes-inner, clashes-free, clashes-read,
}

abbrev holds : Task → Bool
holds t = is_some t.store || (is_some t.mesh || t.layer)

-- A task in the middle of its work.
abbrev pub busy : Task → Bool
busy t = holds t || is_some t.wants

-- The event is not a new wait.
abbrev pub advances : Event → Bool
advances (ask w) = false
advances _ = true

-- The task can be granted the lock that it waits for, or drop one.
abbrev pub CanAdvance : Grants → ℕ → (ℕ → Task) → ℕ → Type 0
CanAdvance grants n s j =
    (e : Event) × (t : Task) × (advances e ≡ true)
    × (perform e (grants n s j) (s j) (s j).wants ≡ some t)

drops :
    (free : Want → Bool) (t : Task)
    → holds t ≡ true
    → (e : Event) × (t' : Task) × (advances e ≡ true) × (perform e free t none ≡ some t')
unfolding perform
drops free t h = elim (Bool-cases (is_some t.store)) [
  | inl stored ↦ (drop_store, record t { store = none }, refl, refl)
  | inr no_store ↦ elim (Bool-cases (is_some t.mesh)) [
    | inl meshed ↦
        (drop_mesh, record t { mesh = none }, refl, rw (may t.role t.store no_store) refl)
    | inr no_mesh ↦ (drop_layer, record t { layer = false }, refl, rw (no_store, no_mesh) refl)
  ]
]
  where
    may : (r : Role) (o : Option (Store × Mode)) → is_some o ≡ false → may_drop_mesh r o ≡ true
    may serve o h = refl
    may receive o h = ground arith
    may retry o h = ground arith

settled :
    (grants : Grants) (lawful : IsLawful grants) (n : ℕ) (s : ℕ → Task) (u : ℕ)
    → ((w : Want) → (s u).wants ≡ some w → clear n s u w ≡ true)
    → busy (s u) ≡ true
    → CanAdvance grants n s u
settled grants lawful n s u free h = elim (Option-cases (s u).wants) [
  | inl e ↦
      let (ev, t, advance, done) = drops (grants n s u) (s u) (ground arith) in
      (ev, t, advance, subst (λ o. perform ev (grants n s u) (s u) o ≡ some t) (sym e) done)
  | inr (w, e) ↦ (
    grant,
    granted w (s u),
    refl,
    subst (λ o. perform grant (grants n s u) (s u) o ≡ some (granted w (s u))) (sym e)
        (unfold perform in rw (lawful.available n s u w (free w e)) refl),
  )
]

-- What a task with a store waits for is free.
store_clear :
    (n : ℕ) (s : ℕ → Task) (u : ℕ) (w : Want)
    → IsSound n s
    → u < n
    → is_some (s u).store ≡ true
    → asks (s u) w ≡ true
    → is_own w ≡ false
    → clear n s u w ≡ true
store_clear n s u w sound b stored asked others =
    let (same, locked) =
      store_waits (s u).role w (s u).layer (s u).mesh (s u).store (sound.ordered u).0 stored asked
        others in
    subst (λ w. clear n s u w ≡ true) (sym same)
      (clear_of n s u (mesh_lock reading) refl λ j c other.
        clashes-read (s u).node (s j) (sound.ordered j)
          λ node. ground (arith, sound.apart u j b c (λ e. other (sym e)) node))

abbrev pub is_own_wait : Option Want → Bool
is_own_wait none = false
is_own_wait (some w) = is_own w

-- The task waits for a lock that it holds itself, which it never gets.
abbrev pub is_stuck : Task → Bool
is_stuck t = is_own_wait t.wants

progress :
    (grants : Grants) (lawful : IsLawful grants) (n : ℕ) (s : ℕ → Task) (i : ℕ)
    → IsSound n s
    → ((u : ℕ) (w : Want) → u < n → (s u).wants ≡ some w → is_own w ≡ false)
    → i < n
    → busy (s i) ≡ true
    → (j : ℕ) × (j < n) × CanAdvance grants n s j
progress grants lawful n s i sound others a h =
    let asked = λ (u : ℕ) (w : Want) (e : (s u).wants ≡ some w).
      subst (Awaited (s u)) e (sound.ordered u).1 in
    elim (search n (λ j. is_some (s j).store)) [
      | inl (u, b, stored) ↦ (
        u,
        b,
        settled grants lawful n s u
            (λ w e. store_clear n s u w sound b stored (asked u w e) (others u w b e))
            (ground arith),
      )
      | inr no_store ↦ elim (search n (λ j. is_some (s j).mesh)) [
        | inl (u, b, meshed) ↦ (
          u,
          b,
          settled grants lawful n s u
              (λ w e. clear_of n s u w (others u w b e) λ j c other.
                clashes-store (s u).node w (s j)
                  (mesh_waits (s u).role w (s u).layer (s u).mesh (s u).store (sound.ordered u).0
                    meshed (asked u w e) (others u w b e))
                  (no_store j c))
              (ground arith),
        )
        | inr no_mesh ↦ elim (search n (λ j. (s j).layer)) [
          | inl (u, b, locked) ↦ (
            u,
            b,
            settled grants lawful n s u
                (λ w e. clear_of n s u w (others u w b e) λ j c other.
                  clashes-inner (s u).node w (s j)
                    (layer_waits (s u).role w (s u).layer (s u).mesh (s u).store locked
                      (asked u w e))
                    (no_mesh j c) (no_store j c))
                (ground arith),
          )
          | inr no_layer ↦ (
            i,
            a,
            settled grants lawful n s i
                (λ w e. clear_of n s i w (others i w a e) λ j c other.
                  clashes-free (s i).node w (s j) (no_layer j c) (no_mesh j c) (no_store j c))
                h,
          )
        ]
      ]
    ]

-- It is a command that has the contacts locked for writing.
own_serves :
    (r : Role) (layer : Bool) (mesh : Option Mode) (store : Option (Store × Mode))
    → role_asks r own_lock layer mesh store ≡ true
    → (r ≡ serve) × (store ≡ some (contacts, writing))
unfolding role_asks receive_asks serve_asks retry_asks
own_serves receive layer mesh store h = absurd (ground arith)
own_serves retry layer mesh store h = absurd (ground arith)
own_serves serve layer mesh none h = absurd (ground arith)
own_serves serve layer mesh (some (contacts, writing)) h = (refl, refl)
own_serves serve layer mesh (some (contacts, reading)) h = absurd (ground arith)
own_serves serve layer mesh (some (channels, m)) h = absurd (ground arith)

stuck_serves :
    (t : Task) (o : Option Want)
    → Awaited t o
    → is_own_wait o ≡ true
    → (t.role ≡ serve) × (t.store ≡ some (contacts, writing))
stuck_serves t (some own_lock) a h = own_serves t.role t.layer t.mesh t.store a
stuck_serves t none a h = absurd (ground arith)
stuck_serves t (some layer_lock) a h = absurd (ground arith)
stuck_serves t (some (mesh_lock m)) a h = absurd (ground arith)
stuck_serves t (some (store_lock x m)) a h = absurd (ground arith)

stuck-perform :
    (e : Event) (free : Want → Bool) (t t' : Task) (o : Option Want)
    → is_own_wait o ≡ true
    → free own_lock ≡ false
    → ¬ (perform e free t o ≡ some t')
unfolding perform
stuck-perform e free t t' none h k p = absurd (ground arith)
stuck-perform (ask w) free t t' (some x) h k p = ground arith
stuck-perform drop_store free t t' (some x) h k p = ground arith
stuck-perform drop_mesh free t t' (some x) h k p = ground arith
stuck-perform drop_layer free t t' (some x) h k p = ground arith
stuck-perform grant free t t' (some own_lock) h k p = absurd (ground arith)
stuck-perform grant free t t' (some layer_lock) h k p = absurd (ground arith)
stuck-perform grant free t t' (some (mesh_lock m)) h k p = absurd (ground arith)
stuck-perform grant free t t' (some (store_lock x m)) h k p = absurd (ground arith)

own-refused :
    (grants : Grants) (lawful : IsLawful grants) (n : ℕ) (s : ℕ → Task) (i : ℕ)
    → grants n s i own_lock ≡ false
unfolding clear
own-refused grants lawful n s i = elim (Bool-cases (grants n s i own_lock)) [
  | inl given ↦ absurd (ground (arith, lawful.exclusive n s i own_lock given))
  | inr held ↦ held
]

-- Over lawful locks, in every interleaving of any number of tasks, of any roles and nodes, if one of them
-- holds a lock or waits for one, then there is a task that can be granted the lock that it waits for, or
-- drop a lock, unless the command RemoveContact waits in the filesystem's `delete` for the mutex that it
-- holds itself: then it has the contacts locked for writing, and can do neither. But for that, they never all wait for each other. A call that a task makes under a lock is
-- taken to return.
pub no_deadlock :
    (grants : Grants) (lawful : IsLawful grants) (n : ℕ) (role : ℕ → Role) (node : ℕ → ℕ)
    (s : ℕ → Task) (i : ℕ)
    → Reach grants n role node s
    → i < n
    → busy (s i) ≡ true
    → ((j : ℕ) × (j < n) × CanAdvance grants n s j)
      ⊎ ((j : ℕ) × (j < n)
          × (is_stuck (s j) ≡ true)
          × ((s j).role ≡ serve)
          × ((s j).store ≡ some (contacts, writing))
          × ¬ CanAdvance grants n s j)
no_deadlock grants lawful n role node s i reached a h =
    let sound = reach-IsSound grants lawful n role node s reached in
    elim (search n (λ j. is_stuck (s j))) [
      | inl (j, b, stuck) ↦
          let (serving, held) = stuck_serves (s j) (s j).wants (sound.ordered j).1 stuck in
          inr (
            j,
            b,
            stuck,
            serving,
            held,
            λ step.
                stuck-perform step.0 (grants n s j) (s j) step.1 (s j).wants stuck
                  (own-refused grants lawful n s j) step.3,
          )
      | inr none_stuck ↦ inl (
          progress grants lawful n s i sound
            (λ u w b e. subst (λ o. is_own_wait o ≡ false) e (none_stuck u b)) a h)
    ]
