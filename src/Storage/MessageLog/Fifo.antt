-- ===== src/Storage/MessageLog/Fifo.antt =====
-- `MessageLog` against a queue of messages: the specification as a relation, and its simulation.
use chiyocore.Base.{
  ℕ, zero, suc, ◌≤◌, ◌≡◌, ◌⊎◌, refl, sym, subst, ap, ◌∙◌, arith, Bool, true, false, Bool-cases,
  Option, none, some, Option-cases, List, [], ◌∷◌, ◌++◌, inl, inr, length, drop, take, length-take,
  leb, leb→le,
}
use chiyocore.Base.Bytes.{Bytes}
use chiyocore.Hal.Outcome.{Outcome, ok, err, panicked, blocked}
use chiyocore.Hal.Filesystem.Objects.{Codec, IsFaithful}
use chiyocore.Storage.Contacts.{to_vec}
use chiyocore.Storage.HashLog
use chiyocore.Storage.HashLog.{HashLog, contains_hash}
use chiyocore.Storage.HashLog.Window.{push_known, push-take}
use chiyocore.Storage.Messages.{SavedMessage, saved_preimage}
use chiyocore.Storage.MessageLog.{
  QueueStorage, IsLawful, MessageLog, store, push, store_new, read_back, pop,
}

-- The operations, and their answers.
pub data Op : Type 0 where
  push_op : SavedMessage → Op
  pop_op : Op

-- A queue of messages beside the hashes of the latest sixteen: a message is refused exactly if its hash is
-- among them; else its hash becomes the latest, the message joins the end, and the oldest messages may be
-- forgotten for it; the first is taken.
pub data Step (hash : SavedMessage → Bytes)
    : List SavedMessage
      → HashLog
      → Op
      → Option SavedMessage
      → List SavedMessage
      → HashLog
      → Type 0 where
  refused :
      {ms : List SavedMessage} {latest : HashLog} {m : SavedMessage}
      → contains_hash (hash m) latest ≡ true
      → Step hash ms latest (push_op m) none ms latest
  joined :
      {ms : List SavedMessage} {latest : HashLog} {m : SavedMessage} (erased : ℕ)
      → contains_hash (hash m) latest ≡ false
      → erased ≤ length ms
      → Step hash ms latest
          (push_op m)
          none
          (drop erased (ms ++ m ∷ []))
          (take 16 (hash m ∷ latest))
  nothing : {latest : HashLog} → Step hash [] latest pop_op none [] latest
  taken :
      {ms : List SavedMessage} {latest : HashLog} {m : SavedMessage}
      → Step hash (m ∷ ms) latest pop_op (some m) ms latest

module _ (c : Codec SavedMessage) where
  -- The items are the messages as `push` writes them.
  unfoldable pub Written : List SavedMessage → List Bytes → Type 0
  Written [] [] = Unit
  Written [] (b ∷ bs) = true ≡ false
  Written (m ∷ ms) [] = true ≡ false
  Written (m ∷ ms) (b ∷ bs) = (to_vec c 328 m ≡ some b) × Written ms bs

  Written-push :
      (ms : List SavedMessage) (bs : List Bytes) (m : SavedMessage) (b : Bytes)
      → Written ms bs
      → to_vec c 328 m ≡ some b
      → Written (ms ++ m ∷ []) (bs ++ b ∷ [])
  unfolding Written
  Written-push [] [] m b w e = (e, tt)
  Written-push [] (b' ∷ bs) m b w e = absurd (ground arith)
  Written-push (m' ∷ ms) [] m b w e = absurd (ground arith)
  Written-push (m' ∷ ms) (b' ∷ bs) m b (first, w) e = (first, Written-push ms bs m b w e)

  Written-drop :
      (n : ℕ) (ms : List SavedMessage) (bs : List Bytes)
      → Written ms bs
      → Written (drop n ms) (drop n bs)
  unfolding Written
  Written-drop zero ms bs w = w
  Written-drop (suc n) [] [] w = tt
  Written-drop (suc n) [] (b ∷ bs) w = absurd (ground arith)
  Written-drop (suc n) (m ∷ ms) [] w = absurd (ground arith)
  Written-drop (suc n) (m ∷ ms) (b ∷ bs) (first, w) = Written-drop n ms bs w

  Written-length :
      (ms : List SavedMessage) (bs : List Bytes) → Written ms bs → length ms ≡ length bs
  unfolding Written
  Written-length [] [] w = refl
  Written-length [] (b ∷ bs) w = absurd (ground arith)
  Written-length (m ∷ ms) [] w = absurd (ground arith)
  Written-length (m ∷ ms) (b ∷ bs) (first, w) = ap suc (Written-length ms bs w)

  to_vec-fits :
      (m : SavedMessage) (b : Bytes)
      → to_vec c 328 m ≡ some b
      → (c.to_allocvec m ≡ some b) × (length b ≤ 328)
  to_vec-fits m b e = elim (Option-cases (c.to_allocvec m)) [
    | inl broken ↦ absurd (ground arith)
    | inr (b', written) ↦ elim (Bool-cases (leb (length b') 328)) [
      | inl fits ↦ ground (arith, leb→le (length b') 328 fits)
      | inr long ↦ absurd (ground arith)
    ]
  ]

abbrev pub no_answer : Outcome (Unit {0}) → Outcome (Option SavedMessage)
no_answer (ok u) = ok none
no_answer (err e) = err e
no_answer panicked = panicked
no_answer blocked = blocked

abbrev pub is_push : Op → Bool
is_push (push_op m) = true
is_push pop_op = false

module _ {Q : Type 0} (q : QueueStorage Q) (c : Codec SavedMessage) (sha1 : Bytes → Bytes) where
  unfoldable pub run : Op → MessageLog Q → Outcome (Option SavedMessage) × MessageLog Q
  run (push_op m) log = let (r, log') = push q c sha1 m log in (no_answer r, log')
  run pop_op log = pop q c log

module _ {Q : Type 0} (q : QueueStorage Q) (lawful : IsLawful q) (c : Codec SavedMessage)
    (faithful : IsFaithful c) (sha1 : Bytes → Bytes) where
  -- The queue on flash holds these messages, and there are at most sixteen hashes.
  abbrev pub Holds : MessageLog Q → List SavedMessage → Type 0
  Holds log ms = Written c ms (lawful.items log.storage) × (length log.latest ≤ 16)

  abbrev pub hash_of : SavedMessage → Bytes
  hash_of m = sha1 (saved_preimage m)

  -- An operation that simulates the queue's.
  abbrev pub Simulated : Op → MessageLog Q → List SavedMessage → Type 0
  Simulated op log ms =
      (a : Option SavedMessage) × (ms' : List SavedMessage) × ((run q c sha1 op log).0 ≡ ok a)
      × Step hash_of ms log.latest op a ms' (run q c sha1 op log).1.latest
      × Holds (run q c sha1 op log).1 ms'

  run-pop : (log : MessageLog Q) (ms : List SavedMessage) → Holds log ms → Simulated pop_op log ms
  unfolding run pop read_back Written
  run-pop log ms h = go ms (lawful.items log.storage) refl h.0
    where
      read_first :
          (o : Option (Option Bytes)) (m : SavedMessage) (b : Bytes)
          → o ≡ some (some b)
          → c.to_allocvec m ≡ some b
          → read_back q c o ≡ ok (some m)
      read_first o m b e w = ground (arith, faithful.from_bytes-to_allocvec m b w)

      go :
          (ms : List SavedMessage) (bs : List Bytes)
          → lawful.items log.storage ≡ bs
          → Written c ms bs
          → Simulated pop_op log ms
      go [] [] e w =
          let (answer, left) = lawful.pop_empty log.storage 328 e in
          (none, [], rw answer refl, nothing, (subst (Written c []) (sym left) tt, h.1))
      go [] (b ∷ bs) e w = absurd (ground arith)
      go (m ∷ ms) [] e w = absurd (ground arith)
      go (m ∷ ms) (b ∷ bs) e (first, w) =
          let (written, fits) = to_vec-fits c m b first in
          let (answer, left) = lawful.pop_first log.storage 328 b bs e fits in
          (
            some m,
            ms,
            read_first (q.pop 328 log.storage).0 m b answer written,
            taken,
            (subst (Written c ms) (sym left) w, h.1),
          )

  -- What `store` makes of a log: a panic, or the message at the end.
  abbrev Stored :
      SavedMessage → MessageLog Q → List SavedMessage → Outcome (Unit {0}) × MessageLog Q → Type 0
  Stored m log ms (r, log') =
      (r ≡ panicked)
      ⊎ ((erased : ℕ) × (r ≡ ok tt)
          × (erased ≤ length ms)
          × (log'.latest ≡ log.latest)
          × Written c (drop erased (ms ++ m ∷ [])) (lawful.items log'.storage))

  store-pushed :
      (m : SavedMessage) (log : MessageLog Q) (b : Bytes)
      → to_vec c 328 m ≡ some b
      → (store q c m log).1.storage ≡ (q.push b log.storage).1
  unfolding store
  store-pushed m log b e = ground arith

  store-Stored :
      (m : SavedMessage) (log : MessageLog Q) (ms : List SavedMessage)
      → Written c ms (lawful.items log.storage)
      → Stored m log ms (store q c m log)
  unfolding store
  store-Stored m log ms h = elim (Option-cases (to_vec c 328 m)) [
    | inl large ↦ inl (ground arith)
    | inr (b, e) ↦ elim (Bool-cases (q.push b log.storage).0) [
      | inl done ↦
          let (erased, bound, grown) = lawful.items-push log.storage b done in
          inr (
            erased,
            ground arith,
            rw (Written-length c ms _ h) bound,
            ground arith,
            subst (λ st. Written c (drop erased (ms ++ m ∷ [])) (lawful.items st))
                (sym (store-pushed m log b e))
                (subst (Written c (drop erased (ms ++ m ∷ []))) (sym grown)
                  (Written-drop c erased _ _ (Written-push c ms _ m b h e))),
          )
      | inr failed ↦ inl (ground arith)
    ]
  ]

  -- The same of `push`, as a step.
  abbrev Stepped :
      SavedMessage → MessageLog Q → List SavedMessage → Outcome (Unit {0}) × MessageLog Q → Type 0
  Stepped m log ms (r, log') =
      (r ≡ panicked)
      ⊎ ((ms' : List SavedMessage) × (r ≡ ok tt)
          × Step hash_of ms log.latest (push_op m) none ms' log'.latest
          × Holds log' ms')

  push-old :
      (m : SavedMessage) (log : MessageLog Q)
      → contains_hash (hash_of m) log.latest ≡ true
      → push q c sha1 m log ≡ (ok tt, log)
  unfolding push store_new
  push-old m log old = rw (push_known 16 (hash_of m) log.latest old) refl

  -- The log in which a new message is stored.
  abbrev remembering : SavedMessage → MessageLog Q → MessageLog Q
  remembering m log = record log { latest = take 16 (hash_of m ∷ log.latest) }

  push-new :
      (m : SavedMessage) (log : MessageLog Q)
      → contains_hash (hash_of m) log.latest ≡ false
      → length log.latest ≤ 16
      → push q c sha1 m log ≡ store q c m (remembering m log)
  unfolding push store_new
  push-new m log new bound =
      let kept : HashLog.push 16 (hash_of m) log.latest ≡ (take 16 (hash_of m ∷ log.latest), true) =
        push-take 16 (hash_of m) log.latest (omega arith) bound ∙ rw new refl in
      rw kept refl

  new-Stepped :
      (m : SavedMessage) (log : MessageLog Q) (ms : List SavedMessage)
      (r : Outcome (Unit {0}) × MessageLog Q)
      → contains_hash (hash_of m) log.latest ≡ false
      → Stored m (remembering m log) ms r
      → Stepped m log ms r
  new-Stepped m log ms r new (inl failed) = inl failed
  new-Stepped m log ms r new (inr (erased, done, bound, same, w)) = inr (
    drop erased (ms ++ m ∷ []),
    done,
    subst (Step hash_of ms log.latest (push_op m) none (drop erased (ms ++ m ∷ []))) (sym same)
        (joined erased new bound),
    (
      w,
      subst (λ l. length l ≤ 16) (sym same)
          (omega (arith, length-take 16 (hash_of m ∷ log.latest))),
    ),
  )

  push-Stepped :
      (m : SavedMessage) (log : MessageLog Q) (ms : List SavedMessage)
      → Holds log ms
      → Stepped m log ms (push q c sha1 m log)
  push-Stepped m log ms h = elim (Bool-cases (contains_hash (hash_of m) log.latest)) [
    | inl old ↦ subst (Stepped m log ms) (sym (push-old m log old)) (inr (ms, refl, refused old, h))
    | inr new ↦
        subst (Stepped m log ms) (sym (push-new m log new h.1))
          (new-Stepped m log ms _ new (store-Stored m (remembering m log) ms h.0))
  ]

  run-push :
      (m : SavedMessage) (log : MessageLog Q) (ms : List SavedMessage)
      → Holds log ms
      → ((run q c sha1 (push_op m) log).0 ≡ panicked) ⊎ Simulated (push_op m) log ms
  unfolding run
  run-push m log ms h = elim (push-Stepped m log ms h) [
    | inl failed ↦ inl (ap no_answer failed)
    | inr (ms', done, step, held) ↦ inr (none, ms', ap no_answer done, step, held)
  ]

  -- An operation on a log whose queue on flash holds a list of messages, and that keeps at most sixteen
  -- hashes, is a step of a queue that refuses duplicates: a push leaves everything as it is exactly if the
  -- hash of the message is among those kept; else the message is added at the end, for which older ones may
  -- be lost, the oldest first, and its hash is put before the others, of which the latest sixteen remain.
  -- A pop answers and takes off the first message, or answers None of an empty queue, and leaves the hashes.
  -- Only a push can panic. For a queue of flash as documented, and a codec that reads back what it writes.
  pub run-Step :
      (op : Op) (log : MessageLog Q) (ms : List SavedMessage)
      → Holds log ms
      → ((is_push op ≡ true) × ((run q c sha1 op log).0 ≡ panicked)) ⊎ Simulated op log ms
  run-Step (push_op m) log ms h = elim (run-push m log ms h) [
    | inl failed ↦ inl (refl, failed)
    | inr simulated ↦ inr simulated
  ]
  run-Step pop_op log ms h = inr (run-pop log ms h)
