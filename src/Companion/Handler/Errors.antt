-- ===== src/Companion/Handler/Errors.antt =====
-- Commands that the companion cannot answer, and the clock.
use chiyocore.Base.{
  ℕ, ◌+◌, ◌*◌, ◌%◌, ◌/◌, ◌<◌, ◌≡◌, ◌≢◌, ◌↔◌, ◌⊎◌, ◌∙◌, refl, ap, arith, Option, none, some,
  Option-cases, ◌∷◌, inl, inr, length, length-append, remove_at,
}
use chiyocore.Base.Bytes.{Bytes}
use chiyocore.Hal.Outcome
use chiyocore.Hal.Filesystem
use chiyocore.Storage.Contacts.{find_idx, contact_key, delete}
use chiyocore.Storage.Contacts.Writes.{delete_stuck}
use chiyocore.Storage.Channels
use chiyocore.Storage.Channels.{Channel}
use chiyocore.Mesh.Types.{Env}
use chiyocore.Mesh.Monad.{Result, on_contacts, of_outcome}
use chiyocore.Mesh.Monad
use chiyocore.Mesh.Send
use chiyocore.Companion.Session.{Host, Response, current_time, ok_packet}
use chiyocore.Companion.Reply.{of_result, done, panicked, blocked, ◌>>=◌, call, or_panic, >>=-pure}
use chiyocore.Companion.Handler.{State, get_time, set_time}
use chiyocore.Companion.Handler.Mesh.{
  send_channel_message, send_to_channel, format_message, plaintext,
}
use chiyocore.Companion.Handler.Stores.{remove_contact}

format_message_long :
    (name txt : Bytes) → (152 < length name + length txt + 2) ↔ (format_message name txt ≡ none)
unfolding format_message
format_message_long name txt = ground (arith, length-append name (58 ∷ 32 ∷ txt))

seconds : (time : ℕ) → time < 4294967296 → (time * 1000000 / 1000000) % 4294967296 ≡ time
seconds time fits = omega arith

module _ {P S Q K : Type 0} (e : Env P S) (h : Host P Q K) where
  send_to_channel-panicked :
      (channel : Channel) (timestamp : ℕ) (msg : Bytes) (w : State P S Q K)
      → (send_to_channel e h channel timestamp msg w).0 ≢ panicked
  unfolding send_to_channel ◌>>=◌ Send.send_channel_message Monad.◌>>=◌ Send.send_flood_packet
      Send.send_packet Send.log_packet Send.transmit
  send_to_channel-panicked channel timestamp msg w p =
      elim (Option-cases (e.encrypt (e.encode_text (plaintext timestamp msg)) channel.key)) [
        | inl broken ↦ absurd (ground arith)
        | inr (sealed, made) ↦ absurd (ground arith)
      ]

  send_channel_message-known :
      (idx timestamp : ℕ) (txt : Bytes) (w : State P S Q K) (channel : Channel)
      → Channels.get idx w.0.channels ≡ some channel
      → send_channel_message e h idx timestamp txt w
        ≡ (or_panic (format_message w.1.name txt) >>= λ msg.
              send_to_channel e h channel timestamp msg)
            w
  unfolding send_channel_message ◌>>=◌
  send_channel_message-known idx timestamp txt w channel known = rw known refl

  -- A text for a known channel makes the companion panic exactly if it is longer than 152 bytes with the
  -- name of the companion and two bytes between them.
  pub send_channel_message-panicked :
      (idx timestamp : ℕ) (txt : Bytes) (w : State P S Q K) (channel : Channel)
      → Channels.get idx w.0.channels ≡ some channel
      → (152 < length w.1.name + length txt + 2)
        ↔ ((send_channel_message e h idx timestamp txt w).0 ≡ panicked)
  unfolding ◌>>=◌
  send_channel_message-panicked idx timestamp txt w channel known =
      rw (send_channel_message-known idx timestamp txt w channel known)
        (go (format_message w.1.name txt) (format_message_long w.1.name txt))
    where
      go :
          (o : Option Bytes)
          → (152 < length w.1.name + length txt + 2) ↔ (o ≡ none)
          → (152 < length w.1.name + length txt + 2)
            ↔ (((or_panic o >>= λ msg. send_to_channel e h channel timestamp msg) w).0 ≡ panicked)
      go none (long, back) = (λ _. refl, λ _. back refl)
      go (some msg) (long, back) = (
        λ l. absurd (ground (arith, long l)),
        λ p. absurd (send_to_channel-panicked channel timestamp msg w p),
      )

  -- The clock answers what it was set to, for a time in the range of its 32 bits.
  pub set_time-get_time :
      (time : ℕ) (w : State P S Q K)
      → time < 4294967296
      → (set_time e h time >>= λ _. get_time e h) w
        ≡ (done (current_time time), (w.0, record w.1 { clock = time * 1000000 }))
  unfolding set_time get_time ◌>>=◌
  set_time-get_time time w fits =
      ap (λ t. (done (current_time t), (w.0, record w.1 { clock = time * 1000000 })))
        (seconds time fits)

  -- The command to remove a contact that is cached is never answered: unless the filesystem fails at the
  -- directory, it waits for ever.
  pub remove_contact_stuck :
      (key : Bytes) (w : State P S Q K) (idx : ℕ)
      → find_idx key w.0.contacts ≡ some idx
      → ((remove_contact e h key w).1.0.contacts ≡ remove_at w.0.contacts idx)
        × ((((remove_contact e h key w).0 ≡ blocked))
            ⊎ ((Filesystem.delete e.map_store e.xxh32
                  (contact_key e.map_store e.xxh32 e.contact_codec key)
                  w.0.fs).0
                ≡ Outcome.err Outcome.sequential_storage))
  unfolding remove_contact
  remove_contact_stuck key w idx found =
      let answer : Response P = ok_packet in
      let m = call (on_contacts (delete e.map_store e.xxh32 e.contact_codec key)) in
      let (state, waits) = >>=-pure m answer w in
      let (cache, ends) =
        delete_stuck e.map_store e.xxh32 e.contact_codec key w.0.contacts w.0.fs idx found in
      (
        ap (λ (x : State P S Q K). x.0.contacts) state ∙ cache,
        elim ends [
          | inl stuck ↦ inl (waits (ap of_result (ap of_outcome stuck)))
          | inr failed ↦ inr failed
        ],
      )
