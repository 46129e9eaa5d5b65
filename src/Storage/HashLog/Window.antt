-- ===== src/Storage/HashLog/Window.antt =====
-- What a `HashLog` remembers: its size, its repetitions, and how long it knows a hash.
use chiyocore.Base.{
  ℕ, zero, suc, ◌+◌, ◌≤◌, ◌<◌, ◌≡◌, refl, ap, true, false, List, [], ◌∷◌, arith, Bool-cases, inl,
  inr, length, get_elem?, take, take_of_length-le, if◌then◌else◌, some,
}
use chiyocore.Base.Bytes.{Bytes, bytes_eq_refl}
use chiyocore.Storage.HashLog.{HashLog, contains_hash, pop_back, push}

-- No hash stands twice.
abbrev pub IsDistinct : HashLog → Type 0
IsDistinct [] = Unit
IsDistinct (h ∷ hs) = (contains_hash h hs ≡ false) × IsDistinct hs

pub record IsValid (capacity : ℕ) (log : HashLog) : Type 0 where
  pub bounded : length log ≤ capacity
  pub distinct : IsDistinct log

length-pop_back : (h : Bytes) (hs : HashLog) → length (pop_back (h ∷ hs)) + 1 ≡ length (h ∷ hs)
unfolding pop_back
length-pop_back h [] = refl
length-pop_back h (h' ∷ hs) = omega (arith, length-pop_back h' hs)

contains_hash-pop_back :
    (x : Bytes) (log : HashLog)
    → contains_hash x log ≡ false
    → contains_hash x (pop_back log) ≡ false
unfolding contains_hash pop_back
contains_hash-pop_back x [] e = refl
contains_hash-pop_back x (h ∷ []) e = refl
contains_hash-pop_back x (h ∷ h' ∷ hs) e = ground (arith, contains_hash-pop_back x (h' ∷ hs))

pop_back-IsDistinct : (log : HashLog) → IsDistinct log → IsDistinct (pop_back log)
unfolding pop_back
pop_back-IsDistinct [] d = tt
pop_back-IsDistinct (h ∷ []) d = tt
pop_back-IsDistinct (h ∷ h' ∷ hs) d =
    (contains_hash-pop_back h (h' ∷ hs) d.0, pop_back-IsDistinct (h' ∷ hs) d.1)

pop_back-eq-take : (n : ℕ) (log : HashLog) → length log ≡ suc n → pop_back log ≡ take n log
unfolding pop_back
pop_back-eq-take n [] e = absurd (omega arith)
pop_back-eq-take zero (h ∷ []) e = refl
pop_back-eq-take (suc n) (h ∷ []) e = absurd (omega arith)
pop_back-eq-take zero (h ∷ h' ∷ hs) e = absurd (omega arith)
pop_back-eq-take (suc n) (h ∷ h' ∷ hs) e = ap (◌∷◌ h) (pop_back-eq-take n (h' ∷ hs) (omega arith))

-- `push` keeps the log within its capacity, which is positive, and without repetitions.
pub push-IsValid :
    (capacity : ℕ) (hash : Bytes) (log : HashLog)
    → 0 < capacity
    → IsValid capacity log
    → IsValid capacity (push capacity hash log).0
unfolding push
push-IsValid capacity hash [] pos v = ground arith
push-IsValid capacity hash (h ∷ hs) pos v = ground (
  arith,
  length-pop_back h hs,
  contains_hash-pop_back hash (h ∷ hs),
  pop_back-IsDistinct (h ∷ hs) v.distinct,
)

abbrev pub push_all : ℕ → List Bytes → HashLog → HashLog
push_all capacity [] log = log
push_all capacity (h ∷ hs) log = push_all capacity hs (push capacity h log).0

contains_of_get :
    (x : Bytes) (log : HashLog) (i : ℕ) → get_elem? log i ≡ some x → contains_hash x log ≡ true
unfolding contains_hash
contains_of_get x [] i e = absurd (ground arith)
contains_of_get x (h ∷ hs) zero e = ground (arith, bytes_eq_refl x)
contains_of_get x (h ∷ hs) (suc i) e = ground (arith, contains_of_get x hs i e)

get_pop_back :
    (log : HashLog) (i : ℕ) (x : Bytes)
    → get_elem? log i ≡ some x
    → i + 1 < length log
    → get_elem? (pop_back log) i ≡ some x
unfolding pop_back
get_pop_back [] i x e b = absurd (omega arith)
get_pop_back (h ∷ []) i x e b = absurd (omega arith)
get_pop_back (h ∷ h' ∷ hs) zero x e b = e
get_pop_back (h ∷ h' ∷ hs) (suc i) x e b = get_pop_back (h' ∷ hs) i x e (omega arith)

-- A hash at place `i` of the log stands, after a `push`, at the same place or the next.
push_shift :
    (capacity : ℕ) (hash x : Bytes) (log : HashLog) (i : ℕ)
    → length log ≤ capacity
    → i + 1 < capacity
    → get_elem? log i ≡ some x
    → (j : ℕ) × (j ≤ i + 1) × (get_elem? (push capacity hash log).0 j ≡ some x)
unfolding push
push_shift capacity hash x log i bound room e = elim (Bool-cases (contains_hash hash log)) [
  | inl old ↦ (i, omega arith, rw old e)
  | inr new ↦ (suc i, omega arith, rw new (ground (arith, get_pop_back log i x e)))
]

push_all-contains :
    (capacity : ℕ) (x : Bytes) (others : List Bytes) (log : HashLog) (i : ℕ)
    → IsValid capacity log
    → i + length others < capacity
    → get_elem? log i ≡ some x
    → contains_hash x (push_all capacity others log) ≡ true
push_all-contains capacity x [] log i v room e = contains_of_get x log i e
push_all-contains capacity x (h ∷ hs) log i v room e =
    let (j, near, at) = push_shift capacity h x log i v.bounded (omega arith) e in
    push_all-contains capacity x hs (push capacity h log).0 j
      (push-IsValid capacity h log (omega arith) v) (omega arith) at

pub push_known :
    (capacity : ℕ) (hash : Bytes) (log : HashLog)
    → contains_hash hash log ≡ true
    → push capacity hash log ≡ (log, false)
unfolding push
push_known capacity hash log h = rw h

push_front :
    (capacity : ℕ) (hash : Bytes) (log : HashLog)
    → contains_hash hash log ≡ false
    → get_elem? (push capacity hash log).0 0 ≡ some hash
unfolding push
push_front capacity hash log h = rw h

-- The dedup window: a message that is new to the log when it is pushed is reported as seen when it comes
-- again after fewer than `capacity` other pushes, whatever they are.
pub push-push_all_seen :
    (capacity : ℕ) (hash : Bytes) (others : List Bytes) (log : HashLog)
    → 0 < capacity
    → IsValid capacity log
    → contains_hash hash log ≡ false
    → length others < capacity
    → push capacity hash (push_all capacity others (push capacity hash log).0)
      ≡ (push_all capacity others (push capacity hash log).0, false)
push-push_all_seen capacity hash others log pos v new few =
    push_known capacity hash (push_all capacity others (push capacity hash log).0) (
      push_all-contains capacity hash others (push capacity hash log).0 0
        (push-IsValid capacity hash log pos v) (omega arith) (push_front capacity hash log new))

-- `push` answers whether the hash is new; of a new one it keeps the `capacity` latest hashes, and it
-- leaves the log alone for one that it knows.
pub push-take :
    (capacity : ℕ) (hash : Bytes) (log : HashLog)
    → 0 < capacity
    → length log ≤ capacity
    → push capacity hash log
      ≡ (if contains_hash hash log then (log, false) else (take capacity (hash ∷ log), true))
unfolding push
push-take zero hash log pos bound = absurd (omega arith)
push-take (suc n) hash log pos bound =
    ground (arith, pop_back-eq-take n log, take_of_length-le n log)

pub push-contains : (hash : Bytes) (log : HashLog) → contains_hash hash (push 32 hash log).0 ≡ true
unfolding push contains_hash
push-contains hash log = elim (Bool-cases (contains_hash hash log)) [
  | inl old ↦ rw old old
  | inr fresh ↦ rw fresh (ground (arith, bytes_eq_refl hash))
]
