-- ===== src/Mesh/Send/Sent.antt =====
-- What a direct message puts on the air.
use chiyocore.Base.{ℕ, true, Option, [], ◌∷◌, ◌++◌, ◌≡◌}
use chiyocore.Base.Bytes.{Bytes}
use chiyocore.Storage.HashLog.{contains_hash}
use chiyocore.Storage.Messages.{Packet, packet_preimage}
use chiyocore.Mesh.Types.{Env}
use chiyocore.Mesh.Monad.{World}

module _ {P S L : Type 0} (e : Env P S) where
  -- The packet is the last one handed to the radio, and the packet log knows it.
  abbrev pub IsSent : Packet P → Option ℕ → World P S L → World P S L → Type 0
  IsSent packet delay w w' =
      (w'.0.sent ≡ w.0.sent ++ (record { packet = packet; delay = delay } ∷ []))
      × (contains_hash (e.sha1 (packet_preimage e.into_bytes e.raw_bytes packet)) w'.0.packet_log
          ≡ true)
