-- ===== src/Storage/MessageLog.antt =====
-- `MessageLog` of firmware/chiyocore/src/simple_mesh/storage/message_log.rs: the messages kept for the
-- companion, in a queue on flash. The queue of the crate sequential_storage is an interface, and so is
-- the crate postcard (`Codec`).
pub mod Fifo
use chiyocore.Base.{
  ℕ, ◌≤◌, ◌≡◌, Bool, true, false, Option, none, some, List, [], ◌∷◌, ◌++◌, if◌then◌else◌, length,
  drop,
}
use chiyocore.Base.Bytes.{Bytes}
use chiyocore.Hal.Outcome.{Outcome, ok, panicked, Action}
use chiyocore.Hal.Filesystem.Objects.{Codec}
use chiyocore.Storage.Contacts.{to_vec}
use chiyocore.Storage.HashLog.{HashLog}
use chiyocore.Storage.HashLog
use chiyocore.Storage.Messages.{SavedMessage, saved_preimage}

-- `QueueStorage`: `push` with overwriting allowed answers whether it succeeded, `pop` into a buffer of
-- a given size; its `none` is an error, `some none` an empty queue.
pub record QueueStorage (Q : Type 0) : Type 0 where
  pub push : Bytes → Q → Bool × Q
  pub pop : ℕ → Q → Option (Option Bytes) × Q

-- What is documented of it, with `items` the queue, oldest first: `push` adds an item at the end, for
-- which it may erase the oldest ones; `pop` takes the first one if the buffer holds it.
pub record IsLawful {Q : Type 0} (q : QueueStorage Q) : Type 0 where
  pub items : Q → List Bytes
  pub items-push :
      (s : Q) (item : Bytes)
      → (q.push item s).0 ≡ true
      → (erased : ℕ) × (erased ≤ length (items s))
        × (items (q.push item s).1 ≡ drop erased (items s ++ item ∷ []))
  pub pop_empty :
      (s : Q) (buffer : ℕ)
      → items s ≡ []
      → ((q.pop buffer s).0 ≡ some none) × (items (q.pop buffer s).1 ≡ [])
  pub pop_first :
      (s : Q) (buffer : ℕ) (item : Bytes) (rest : List Bytes)
      → items s ≡ item ∷ rest
      → length item ≤ buffer
      → ((q.pop buffer s).0 ≡ some (some item)) × (items (q.pop buffer s).1 ≡ rest)

-- The scratch buffer is only written before it is read.
pub record MessageLog (Q : Type 0) : Type 0 where
  pub storage : Q
  pub latest : HashLog

module _ {Q : Type 0} (q : QueueStorage Q) (c : Codec SavedMessage) where
  -- `postcard::to_slice(…).unwrap()` and `push(…).unwrap()`.
  unfoldable pub store : SavedMessage → Action (MessageLog Q) (Unit {0})
  store message log = elim (to_vec c 328 message) [
    | none ↦ (panicked, log)
    | some body ↦
        let (done, storage) = q.push body log.storage in
        (if done then ok tt else panicked, record log { storage = storage })
  ]

  -- Past the early return of `push`.
  unfoldable pub store_new : Bool → SavedMessage → Action (MessageLog Q) (Unit {0})
  store_new false message log = (ok tt, log)
  store_new true message log = store message log

  unfoldable pub push : (Bytes → Bytes) → SavedMessage → Action (MessageLog Q) (Unit {0})
  push sha1 message log =
      let (latest, msg_new) = HashLog.push 16 (sha1 (saved_preimage message)) log.latest in
      store_new msg_new message (record log { latest = latest })

  -- `postcard::from_bytes(v).unwrap()`.
  unfoldable pub read_back : Option (Option Bytes) → Outcome (Option SavedMessage)
  read_back none = panicked
  read_back (some none) = ok none
  read_back (some (some v)) = elim (c.from_bytes v) [ none ↦ panicked | some m ↦ ok (some m) ]

  unfoldable pub pop : Action (MessageLog Q) (Option SavedMessage)
  pop log =
      let (v, storage) = q.pop 328 log.storage in (read_back v, record log { storage = storage })
