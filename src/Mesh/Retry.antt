-- ===== src/Mesh/Retry.antt =====
-- `send_with_retry` of firmware/chiyocore/src/simple_mesh/mod.rs, as a loop over the node and what
-- waits for its acks. `await_ack` is the `select` of the ack table and the timer, and what the other
-- tasks do to the world meanwhile: whether the ack came first.
pub mod Schedule
use chiyocore.Base.{
  ℕ, zero, suc, ◌+◌, Bool, true, false, not, ◌&&◌, Option, none, some, List, [], ◌∷◌, ◌++◌,
  if◌then◌else◌, leb,
}
use Prim.Native.Nat.{max}
use chiyocore.Base.Bytes.{Bytes}
use chiyocore.Storage.Messages.{PayloadType, TextMessageData}
use chiyocore.Storage.Contacts.{Contact, insert, full_get}
use chiyocore.Mesh.Types.{Env, Node}
use chiyocore.Mesh.Monad.{
  World, Result, ok, err, panicked, blocked, Call, pure, panic, ◌>>=◌, ◌>>◌, or_panic, on_contacts,
  on_fs,
}
use chiyocore.Mesh.Send.{send_to_contact}

-- `.unwrap()` of a result.
abbrev pub unwrap : {W A : Type 0} → Call W A → Call W A
unwrap m w =
    let (r, w') = m w in
    elim r [
      | ok a ↦ (ok a, w')
      | err e ↦ (panicked, w')
      | panicked ↦ (panicked, w')
      | blocked ↦ (blocked, w')
    ]

-- The steps of the loop: one attempt along a path, with whether it was acknowledged; the reset of the
-- contact's path; and the wake of the waiting task.
pub record Steps (P W : Type 0) : Type 0 where
  pub attempt : ℕ → Option P → Call W Bool
  pub reset : Call W (Unit {0})
  pub wake : Call W (Unit {0})

-- The loop, on fuel, as its last `wake`: `waker.wake()` after the `break` runs as well.
unfoldable pub retry_loop : {P W : Type 0} → Steps P W → ℕ → ℕ → Bool → Option P → Call W (Unit {0})
retry_loop s zero attempt has_flooded path = λ w. (blocked, w)
retry_loop s (suc fuel) attempt has_flooded path =
    let again = retry_loop s fuel (attempt + 1) has_flooded path in
    let flood = retry_loop s fuel 0 true none in
    if leb attempt 3
    then (s.attempt attempt path >>= λ acked.
        if acked
        then (s.wake >> s.wake)
        else if leb 3 (attempt + 1) && not has_flooded
        then (s.reset >> flood)
        else again)
    else s.wake

-- Seven rounds and the last test of the loop.
unfoldable pub send_with_retry : {P W : Type 0} → Steps P W → Option P → Call W (Unit {0})
send_with_retry s path = retry_loop s 8 0 false path

module _ {P S L : Type 0} (e : Env P S) (await_ack : Bytes → ℕ → Call (World P S L) Bool)
    (wake : Call (World P S L) (Unit {0})) (contact : Bytes) (message : TextMessageData) where
  attempt_once : ℕ → Option P → Call (World P S L) Bool
  attempt_once attempt path = do
    let text : TextMessageData = record message { attempt = attempt }
    delay ← unwrap (send_to_contact e PayloadType.txt_msg contact path (e.encode_text text) none)
    await_ack (e.ack_crc text e.pubkey) (max delay 2500)

  reset_path : Call (World P S L) (Unit {0})
  reset_path = do
    full ← unwrap (on_fs (full_get e.map_store e.xxh32 e.contact_codec contact))
    found ← or_panic full
    unwrap
        (on_contacts (insert e.map_store e.xxh32 e.contact_codec (record found { path_to = none })))

  -- The steps on a mesh node.
  unfoldable pub steps : Steps P (World P S L)
  unfolding attempt_once reset_path
  steps = record { attempt = attempt_once; reset = reset_path; wake = wake }
