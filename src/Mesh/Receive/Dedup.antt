-- ===== src/Mesh/Receive/Dedup.antt =====
-- Packets that the node has seen. The layers here do not write the packet log, that is, they send no
-- packet of their own; the acks of the node itself are not logged.
use chiyocore.Base.{Bool, true, false, ◌≡◌, refl, ap, ◌∙◌}
use chiyocore.Base.Bytes.{Bytes}
use chiyocore.Storage.HashLog.{HashLog, push, contains_hash}
use chiyocore.Storage.Messages.{Packet, packet_preimage}
use chiyocore.Storage.HashLog.Window.{push-contains}
use chiyocore.Mesh.Types.{Env, Node, Reception}
use chiyocore.Mesh.Monad.{World, ok, ◌>>=◌}
use chiyocore.Mesh.Layer.{Layer, Event}
use chiyocore.Mesh.Send.{log_packet}
use chiyocore.Mesh.Receive.{packet, handle}
use chiyocore.Mesh.Receive.Keeps.{Keeps, Keeps->>=, IsKept, dispatch-Keeps}

module _ {P S : Type 0} (e : Env P S) where
  -- The hash under which a packet is logged.
  abbrev pub packet_hash : Packet P → Bytes
  packet_hash p = e.sha1 (packet_preimage e.into_bytes e.raw_bytes p)

  abbrev HasLog : HashLog → Node P S → Type 0
  HasLog log n = n.packet_log ≡ log

  kept : (log : HashLog) → IsKept e (HasLog log)
  kept log = record {
    on_message = λ n hash i. i;
    on_sent = λ n s i. i;
    on_woken = λ n crc i. i;
    on_keys = λ n m i. i;
    on_insert = λ n c i. i;
    on_full_get = λ n key i. i;
  }

module _ {P S L : Type 0} (e : Env P S) (layers : Layer P S L) where
  handle-HasLog :
      (log : HashLog)
      → ((r : Reception P) (ev : Event P) (w : World P S L)
          → HasLog e log w.0
          → HasLog e log (layers r ev w).1.0)
      → (r : Reception P) (fresh : Bool) → Keeps (HasLog e log) (handle e layers r fresh)
  handle-HasLog log calm r true = Keeps->>= (HasLog e log) _ _ (calm r Event.packet) λ _.
      dispatch-Keeps e layers (HasLog e log) (kept e log) calm r r.packet.header.payload_type
        r.packet.payload
  handle-HasLog log calm r false = λ w i. i

  -- The log after a packet: its hash has been pushed, and nothing else.
  packet_log-packet :
      ((r : Reception P) (ev : Event P) (w : World P S L)
        → (layers r ev w).1.0.packet_log ≡ w.0.packet_log)
      → (r : Reception P) (w : World P S L)
      → (packet e layers r w).1.0.packet_log ≡ (push 32 (packet_hash e r.packet) w.0.packet_log).0
  unfolding packet log_packet ◌>>=◌
  packet_log-packet quiet r w =
      let (log, fresh) = push 32 (packet_hash e r.packet) w.0.packet_log in
      handle-HasLog log (λ r' ev w' i. quiet r' ev w' ∙ i) r fresh
        (record w.0 { packet_log = log }, w.1) refl

  packet_known :
      (r : Reception P) (w : World P S L)
      → contains_hash (packet_hash e r.packet) w.0.packet_log ≡ true
      → packet e layers r w ≡ (ok tt, w)
  unfolding packet log_packet ◌>>=◌ push
  packet_known r w known = rw known refl

  -- If no call of the layers writes the packet log, receiving a packet again right after it was
  -- received, even with another signal status, is `Ok` and changes neither the node nor the state of
  -- the layers, however the first call ended.
  pub packet-packet :
      ((r : Reception P) (ev : Event P) (w : World P S L)
        → (layers r ev w).1.0.packet_log ≡ w.0.packet_log)
      → (r r' : Reception P) (w : World P S L) → r'.packet ≡ r.packet
      → packet e layers r' (packet e layers r w).1 ≡ (ok tt, (packet e layers r w).1)
  packet-packet quiet r r' w same = packet_known r' (packet e layers r w).1 (
      ap (λ p. contains_hash (packet_hash e p) (packet e layers r w).1.0.packet_log) same
      ∙ ap (contains_hash (packet_hash e r.packet)) (packet_log-packet quiet r w)
      ∙ push-contains (packet_hash e r.packet) w.0.packet_log)
