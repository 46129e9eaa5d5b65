-- ===== src/Lora/Channel.antt =====
-- `LoraTaskChannel` and `PacketContext` of firmware/chiyocore/src/lora.rs: packets handed to the LoRa task,
-- and the packets that it received handed to a mesh node. The codec of the crate meshcore is a parameter;
-- the wait for a free slot is not modelled.
use chiyocore.Base.{ℕ, ◌≢◌, arith, Option, none, some, List, [], ◌∷◌, ◌++◌}
use chiyocore.Base.Bytes.{Bytes}
use chiyocore.Storage.Messages.{Packet, PayloadType, RouteType}
use chiyocore.Mesh.Types.{Env, Reception, CompanionError}
use chiyocore.Mesh.Monad.{World, Result, ok, err, panicked, blocked, Call, pure, ◌>>=◌}
use chiyocore.Mesh.Layer.{Layer}
use chiyocore.Mesh.Receive.{packet}
use chiyocore.Mesh.Receive.Keeps.{Keeps, Keeps->>=}
use chiyocore.Mesh.Receive.Invariant.{IsValid}
use chiyocore.PingBot.{PingBot, Format}
use chiyocore.Companion.Session.{Session, Host}
use chiyocore.Companion.Layer.Valid.{layers, firmware-IsValid}
use chiyocore.Lora.{Received}

-- `Packet::decode` and `encode_into_vec`, whose `none` is an error; what it has written before one.
pub record PacketCodec (P : Type 0) : Type 0 where
  pub decode : Bytes → Option (Packet P)
  pub encode_into_vec : Packet P → Option Bytes
  pub written : Packet P → Bytes

-- The channel to the LoRa task, oldest first.
abbrev pub Channel : Type 0
Channel = List Bytes

module _ {P S : Type 0} (e : Env P S) (c : PacketCodec P) where
  -- `Packet::encode_into_vec(…).unwrap()` into a slot. A dropped slot has been sent.
  unfoldable pub send_packet : Packet P → Call Channel ℕ
  send_packet p channel = elim (c.encode_into_vec p) [
    | none ↦ (panicked, channel ++ c.written p ∷ [])
    | some bytes ↦ (ok (e.timeout_est p), channel ++ bytes ∷ [])
  ]

  -- Of a payload that has been encoded.
  unfoldable pub send_direct : PayloadType → Bytes → P → Call Channel ℕ
  send_direct ty payload path = send_packet (record {
    header = record { payload_type = ty; route_type = RouteType.direct };
    path = path;
    payload = payload;
  })

  unfoldable pub send_flood : PayloadType → Bytes → P → Call Channel ℕ
  send_flood ty payload path = send_packet (record {
    header = record { payload_type = ty; route_type = RouteType.flood };
    path = path;
    payload = payload;
  })

  -- The bytes that the delayed task puts into the channel when its time has come, and the timeout.
  unfoldable pub send_delayed : Packet P → ℕ × Bytes
  send_delayed p = elim (c.encode_into_vec p) [
    | none ↦ (e.timeout_est p, c.written p)
    | some bytes ↦ (e.timeout_est p, bytes)
  ]

module _ {P S L : Type 0} (e : Env P S) (c : PacketCodec P) (layer : Layer P S L) where
  -- `PacketContext::call_me`: an error of the node is logged.
  unfoldable logged : Result (Unit {0}) × World P S L → Result (Unit {0}) × World P S L
  logged (ok u, w) = (ok u, w)
  logged (err x, w) = (ok tt, w)
  logged (panicked, w) = (panicked, w)
  logged (blocked, w) = (blocked, w)

  unfoldable pub call_me : Reception P → Call (World P S L) (Unit {0})
  unfolding logged
  call_me r w = logged (packet e layer r w)

  -- The body of the loop of `run_handler`, with one node.
  unfoldable pub handle_decoded : Received → Option (Packet P) → Call (World P S L) (Unit {0})
  handle_decoded slot none = pure tt
  handle_decoded slot (some p) =
      call_me (record { packet = p; rssi = slot.rssi; snr = slot.snr; bytes = slot.bytes })

  unfoldable pub handle : Received → Call (World P S L) (Unit {0})
  unfolding handle_decoded
  handle slot = handle_decoded slot (c.decode slot.bytes)

  -- The loop over the packets received.
  unfoldable pub run_handler : List Received → Call (World P S L) (Unit {0})
  run_handler [] = pure tt
  run_handler (slot ∷ slots) = handle slot >>= λ _. run_handler slots

module _ {P S L : Type 0} (e : Env P S) (c : PacketCodec P) (layer : Layer P S L) where
  call_me-err :
      (r : Reception P) (w : World P S L) (x : CompanionError) → (call_me e c layer r w).0 ≢ err x
  unfolding call_me logged
  call_me-err r w x h = go (packet e layer r w) h
    where
      go : (o : Result (Unit {0}) × World P S L) → (logged e c layer o).0 ≢ err x
      go (ok u, w) h = absurd (ground arith)
      go (err y, w) h = absurd (ground arith)
      go (panicked, w) h = absurd (ground arith)
      go (blocked, w) h = absurd (ground arith)

  handle_decoded-err :
      (slot : Received) (o : Option (Packet P)) (w : World P S L) (x : CompanionError)
      → (handle_decoded e c layer slot o w).0 ≢ err x
  unfolding handle_decoded
  handle_decoded-err slot none w x h = absurd (ground arith)
  handle_decoded-err slot (some p) w x h = call_me-err _ w x h

  handle-err :
      (slot : Received) (w : World P S L) (x : CompanionError) → (handle e c layer slot w).0 ≢ err x
  unfolding handle
  handle-err slot w x = handle_decoded-err slot (c.decode slot.bytes) w x

  -- No error of a packet ends the loop over the packets received.
  run_handler-err :
      (slots : List Received) (w : World P S L) (x : CompanionError)
      → (run_handler e c layer slots w).0 ≢ err x
  unfolding run_handler ◌>>=◌
  run_handler-err [] w x h = absurd (ground arith)
  run_handler-err (slot ∷ slots) w x h =
      go (handle e c layer slot w) (λ w' u. run_handler-err slots w' x u) (handle-err slot w x) h
    where
      go :
          (o : Result (Unit {0}) × World P S L)
          → ((w' : World P S L) → (run_handler e c layer slots w').0 ≢ err x)
          → o.0 ≢ err x
          → (◌>>=◌ (λ _. o) (λ _. run_handler e c layer slots) w).0 ≢ err x
      go (ok u, w') rest fine h = rest w' h
      go (err y, w') rest fine h = fine h
      go (panicked, w') rest fine h = absurd (ground arith)
      go (blocked, w') rest fine h = absurd (ground arith)

module _ {P S Q K : Type 0} (e : Env P S) (c : PacketCodec P) (f : Format P) (h : Host P Q K) where
  call_me-IsValid : (r : Reception P) → Keeps (IsValid e) (call_me e c (layers e f h) r)
  unfolding call_me logged
  call_me-IsValid r w v = go (packet e (layers e f h) r w) (firmware-IsValid e f h r w v)
    where
      go :
          (o : Result (Unit {0}) × World P S (Session Q K × PingBot))
          → IsValid e o.1.0
          → IsValid e (logged e c (layers e f h) o).1.0
      go (ok u, w) v = v
      go (err y, w) v = v
      go (panicked, w) v = v
      go (blocked, w) v = v

  handle_decoded-IsValid :
      (slot : Received) (o : Option (Packet P))
      → Keeps (IsValid e) (handle_decoded e c (layers e f h) slot o)
  unfolding handle_decoded
  handle_decoded-IsValid slot none = λ w v. v
  handle_decoded-IsValid slot (some p) = call_me-IsValid _

  handle-IsValid : (slot : Received) → Keeps (IsValid e) (handle e c (layers e f h) slot)
  unfolding handle
  handle-IsValid slot = handle_decoded-IsValid slot (c.decode slot.bytes)

  run_handler-Keeps :
      (slots : List Received) → Keeps (IsValid e) (run_handler e c (layers e f h) slots)
  unfolding run_handler
  run_handler-Keeps [] = λ w v. v
  run_handler-Keeps (slot ∷ slots) =
      Keeps->>= (IsValid e) _ _ (handle-IsValid slot) λ _. run_handler-Keeps slots

  -- The node of the firmware stays valid over any sequence of packets from the radio, with any bytes in
  -- them, and with the companion and the ping bot on it; and no error of a packet ends the loop over them.
  pub run_handler-IsValid :
      (slots : List Received) (w : World P S (Session Q K × PingBot))
      → IsValid e w.0
      → IsValid e (run_handler e c (layers e f h) slots w).1.0
        × ((x : CompanionError) → (run_handler e c (layers e f h) slots w).0 ≢ err x)
  run_handler-IsValid slots w v =
      (run_handler-Keeps slots w v, run_handler-err e c (layers e f h) slots w)
