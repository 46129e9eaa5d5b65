-- ===== src/Mesh/Layer.antt =====
-- `SimpleMeshLayer` of firmware/chiyocore/src/simple_mesh/layer.rs: its methods as the constructors of
-- a type of events, and a layer as its reaction to each. The packet and its status, which every method
-- takes, come as the reception.
pub mod Join
use chiyocore.Base.{ℕ, List, [], ◌∷◌, ◌≡◌, refl, Option, none, some, arith}
use chiyocore.Base.Bytes.{Bytes}
use chiyocore.Storage.Messages.{TextMessageData}
use chiyocore.Storage.Contacts.{CachedContact}
use chiyocore.Storage.Channels.{Channel}
use chiyocore.Mesh.Types.{
  Node, Reception, Advert, ReturnedPath, RequestPayload, TracePacket, CompanionError,
}
use chiyocore.Mesh.Monad.{Result, ok, err, panicked, blocked, World}
use chiyocore.Mesh.Monad

pub data Event (P : Type 0) : Type 0 where
  packet : Event P
  text_message : CachedContact P → TextMessageData → Event P
  group_text : Channel → TextMessageData → Event P
  ack : Bytes → Event P
  advert : Advert → Event P
  returned_path : CachedContact P → ReturnedPath P → Event P
  response : CachedContact P → Bytes → Event P
  request : CachedContact P → RequestPayload → Event P
  anonymous_request : Bytes → Bytes → Event P
  trace_packet : Bytes → TracePacket P → Event P
  control_packet : Bytes → Event P

module _ (P S : Type 0) where
  -- A layer with state `L`, on the node that it may read and send with.
  abbrev pub Layer : Type 0 → Type 0
  Layer L = Reception P → Event P → World P S L → Result (Unit {0}) × World P S L

-- `$var?` for each result in turn.
abbrev pub first_error : Result (Unit {0}) → Result (Unit {0}) → Result (Unit {0})
first_error (ok _) r = r
first_error (err e) r = err e
first_error panicked r = panicked
first_error blocked r = blocked

module _ {P S : Type 0} where
  -- The tuple of two layers: both run to their end, and then the results are looked at in order. A
  -- layer that panics or waits for ever takes the join with it. The join polls its members in turn,
  -- and a member that never waits has finished before the next begins.
  unfoldable pub join : {L M : Type 0} → Layer P S L → Layer P S M → Layer P S (L × M)
  join a b r e (n, (l, m)) =
      let (x, (n', l')) = a r e (n, l) in
      let (y, (n'', m')) = b r e (n', m) in
      elim x [
        | ok _ ↦ (y, (n'', (l', m')))
        | err er ↦ (first_error (err er) y, (n'', (l', m')))
        | panicked ↦ (panicked, (n', (l', m)))
        | blocked ↦ (blocked, (n', (l', m)))
      ]
