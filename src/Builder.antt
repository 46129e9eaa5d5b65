-- ===== src/Builder.antt =====
-- The set-up of the firmware: firmware/chiyocore/src/builder.rs, and `SimpleMesh::new` of
-- firmware/chiyocore/src/simple_mesh/mod.rs. The hardware's peripherals, the network stack and the tasks
-- that are spawned are not modelled; the LoRa task has a module of its own.
pub mod Partitions
pub mod Start
use chiyocore.Base.Bytes.{Bytes}
use chiyocore.Hal.MapStore.{MapStore}
use chiyocore.Hal.Filesystem.Objects.{Codec}
use chiyocore.Storage.Contacts.{Contact}
use chiyocore.Storage.Channels.{Channel}
use chiyocore.Base.{ℕ, Option, none, some, List, []}
use chiyocore.Hal.Filesystem.{Fs}
use chiyocore.Hal.Outcome.{Outcome, ok, err, panicked, blocked, Action, pure, ◌>>=◌}
use chiyocore.Hal.Partition.{FsPartition}
use chiyocore.Storage.HashLog
use chiyocore.Storage.KeyCache
use chiyocore.Storage.MeshStorage.{MeshStorage}
use chiyocore.Storage.MeshStorage
use chiyocore.Storage.MessageLog.{MessageLog}
use chiyocore.Mesh.Types.{Node, Env}
use chiyocore.Lora.{Received}

-- The rows `meshcore_data` and `logs` of firmware/partitions.csv, as `ChiyocoreFs::new` takes them.
abbrev pub main_part : FsPartition
main_part = record { partition_offset = 4259840; partition_size = 1048576 }

abbrev pub log_part : FsPartition
log_part = record { partition_offset = 5308416; partition_size = 3080192 }

-- `MessageLog::new`, over a queue that the crate sequential_storage makes of a partition.
abbrev pub new_log : {Q : Type 0} → Q → MessageLog Q
new_log queue = record { storage = queue; latest = HashLog.new }

-- `SimpleMesh::new`, on what is modelled of a node: it shares the storages and the filesystem.
abbrev pub new_mesh : {P S : Type 0} → MeshStorage P → Fs S → Node P S
new_mesh storage fs = record {
  packet_log = HashLog.new;
  message_log = HashLog.new;
  contacts = storage.contacts;
  channels = storage.channels;
  fs = fs;
  key_cache = KeyCache.new;
  woken = [];
  sent = [];
}

-- What `ChiyocoreFs` has beside the filesystem.
pub record ChiyocoreFs (P Q : Type 0) : Type 0 where
  pub log_fs : MessageLog Q
  pub mesh_storage : MeshStorage P

-- `Chiyocore`, without the peripherals: the packets received, and the node hosted.
pub record Chiyocore (P Q L D : Type 0) : Type 0 where
  pub fs : ChiyocoreFs P Q
  pub lora_rx : List Received
  pub setup_data : D
  pub hosted_node : Option L

-- `ChiyocoreSetupData`, with a network stack `N`.
pub record ChiyocoreSetupData (N : Type 0) : Type 0 where
  pub net_stack : Option N

-- `ChiyocoreFs::new`, on a filesystem and a queue that the crate sequential_storage makes of the two
-- partitions.
module _ {P S Q : Type 0} (m : MapStore S) (xxh32 : Bytes → ℕ → ℕ) (contact : Codec (Contact P))
    (channel : Codec Channel) where
  unfoldable pub new_fs : Q → Action (Fs S) (ChiyocoreFs P Q)
  new_fs queue = do
    mesh_storage ← MeshStorage.new m xxh32 contact channel
    pure (record { log_fs = new_log queue; mesh_storage = mesh_storage })

-- The next step of a set-up that has not panicked.
abbrev pub and_then : {A B : Type 0} → Outcome A → (A → Outcome B) → Outcome B
and_then (ok a) f = f a
and_then (err e) f = err e
and_then panicked f = panicked
and_then blocked f = blocked

module _ {P Q T : Type 0} where
  abbrev pub with_node : {L D E : Type 0} → Option L → E → Chiyocore P Q T D → Chiyocore P Q L E
  with_node node setup_data c = record {
    fs = c.fs;
    lora_rx = c.lora_rx;
    setup_data = setup_data;
    hosted_node = node;
  }

  abbrev pub build : {D : Type 0} → Chiyocore P Q T D → Chiyocore P Q T (Unit {0})
  build c = with_node c.hosted_node tt c

  -- `run`: what the handler makes of the packets received, unless the `unwrap` panics.
  unfoldable pub run :
      {R : Type 0} → (List Received → T → R) → Chiyocore P Q T (Unit {0}) → Outcome R
  run run_handler c = elim c.hosted_node [
    | none ↦ panicked
    | some node ↦ ok (run_handler c.lora_rx node)
  ]

module _ {P Q N T : Type 0} where
  -- The end of `setup`.
  abbrev pub setup : ChiyocoreFs P Q → List Received → Chiyocore P Q T (ChiyocoreSetupData N)
  setup fs lora_rx = record {
    fs = fs;
    lora_rx = lora_rx;
    setup_data = record { net_stack = none };
    hosted_node = none;
  }

  -- `add_network`, when the network is up.
  abbrev pub add_network :
      N → Chiyocore P Q T (ChiyocoreSetupData N) → Chiyocore P Q T (ChiyocoreSetupData N)
  add_network net_stack c = record c { setup_data = record { net_stack = some net_stack } }

  -- `add_node`: `build_handler` on the instance as it is. A node that was hosted is dropped.
  unfoldable pub add_node :
      {L : Type 0}
      → (Chiyocore P Q T (ChiyocoreSetupData N) → Outcome L)
      → Chiyocore P Q T (ChiyocoreSetupData N)
      → Outcome (Chiyocore P Q L (ChiyocoreSetupData N))
  add_node build_handler c =
      and_then (build_handler c) λ handler. ok (with_node (some handler) c.setup_data c)

  -- `build_handler` of a `ChiyocoreNode`: the node, and its layers built on it.
  unfoldable pub build_handler :
      {S L : Type 0}
      → Fs S
      → Action (Node P S) L
      → Chiyocore P Q T (ChiyocoreSetupData N)
      → Outcome (Node P S × L)
  build_handler fs build_layers c =
      let (layers, mesh) = build_layers (new_mesh c.fs.mesh_storage fs) in
      and_then layers λ l. ok (mesh, l)

-- `build` of a tuple of layers: one after the other.
unfoldable pub build_both : {X A B : Type 0} → Action X A → Action X B → Action X (A × B)
build_both build_a build_b = do a ← build_a; b ← build_b; pure (a, b)
