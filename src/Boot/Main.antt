-- ===== src/Boot/Main.antt =====
-- The `main` that builder/src/gen_main.rs writes for a firmware with one node: from `Chiyocore::setup` to the
-- loop of `run_handler`. The hardware before it, and the second core on which the loop is spawned, are not
-- modelled. What becomes of the network is a parameter: it may never come up, or have no configuration.
use chiyocore.Base.{ℕ, List}
use chiyocore.Base.Bytes.{Bytes}
use chiyocore.Hal.Outcome.{Outcome, Action, pure, ◌>>=◌}
use chiyocore.Hal.MapStore.{MapStore}
use chiyocore.Hal.Filesystem.{Fs, codes}
use chiyocore.Hal.Filesystem.Objects.{Codec}
use chiyocore.Storage.Contacts.{Contact}
use chiyocore.Storage.Channels.{Channel, ChannelStorage, State}
use chiyocore.Companion.Build.{ChannelKeys}
use chiyocore.Mesh.Types.{Node}
use chiyocore.Lora.{Received}
use chiyocore.Builder.{
  ChiyocoreFs, Chiyocore, ChiyocoreSetupData, new_fs, and_then, setup, add_network, add_node,
  build_handler, build, run,
}
use chiyocore.Boot.{
  AdvertType, ChiyocoreNode, Crates, add_channels, insert_vars, network_var, load_node_slot,
}

-- What the configuration puts into the code of `main`: the channels with their keys, the variables, and
-- the node.
pub record MainConf : Type 0 where
  pub public_keys : ChannelKeys
  pub from_hashtag : Bytes → ChannelKeys
  pub default_channels : List Bytes
  pub config : List (Bytes × Bytes)
  pub name : Bytes
  pub role : AdvertType
  pub id : Bytes

abbrev pub with_channels : {P Q : Type 0} → ChiyocoreFs P Q → ChannelStorage → ChiyocoreFs P Q
with_channels chiyo channels = record chiyo {
  mesh_storage = record chiyo.mesh_storage { channels = channels };
}

-- `chiyocore.main_fs()`, and the channels of `chiyocore.mesh_storage()`.
abbrev pub on_fs : {C S A : Type 0} → Action (Fs S) A → Action (C × Fs S) A
on_fs f (chiyo, fs) = let (r, fs') = f fs in (r, (chiyo, fs'))

abbrev pub lift : {W A : Type 0} → Outcome A → Action W A
lift r w = (r, w)

module _ {P S Q I N : Type 0} (m : MapStore S) (xxh32 : Bytes → ℕ → ℕ) (channel : Codec Channel)
    (c : Crates I) (conf : MainConf) (connect : Bytes → Bytes → Outcome N) where
  abbrev pub on_channels :
      Action (State m xxh32 channel) (Unit {0}) → Action (ChiyocoreFs P Q × Fs S) (Unit {0})
  on_channels f (chiyo, fs) =
      let (r, (channels, fs')) = f (chiyo.mesh_storage.channels, fs) in
      (r, (with_channels chiyo channels, fs'))

  -- The node of the slot, once the network is up.
  abbrev pub load_node : N → Action (ChiyocoreFs P Q × Fs S) (N × ChiyocoreNode I)
  load_node net_stack = do
    node ← on_fs (load_node_slot m xxh32 c conf.name conf.role conf.id)
    pure (net_stack, node)

  -- The arguments of `add_network`, and what comes of the network.
  abbrev pub join_network : Action (ChiyocoreFs P Q × Fs S) N
  join_network = do
    ssid ← on_fs (network_var m xxh32 c (codes "wifi.ssid"))
    pw ← on_fs (network_var m xxh32 c (codes "wifi.pw"))
    lift (connect ssid pw)

  -- From the channels to the loading of the node: the network, and the node of the slot.
  unfoldable pub configure : Action (ChiyocoreFs P Q × Fs S) (N × ChiyocoreNode I)
  configure = do
    _ ←
        on_channels
          (add_channels m xxh32 channel conf.public_keys conf.from_hashtag conf.default_channels)
    _ ← on_fs (insert_vars m xxh32 c conf.config)
    net_stack ← join_network
    load_node net_stack

  module _ {L R : Type 0} (contact : Codec (Contact P)) (queue : Q)
      (build_layers : ChiyocoreNode I → Action (Node P S) L)
      (run_handler : ChiyocoreNode I → List Received → Node P S × L → R)
      (lora_rx : List Received) where
    -- The node that was loaded is added, and the instance built and run.
    unfoldable pub host_node : ChiyocoreFs P Q → Fs S → N × ChiyocoreNode I → Outcome R
    host_node chiyo fs (net_stack, node) =
        let c : Chiyocore P Q (Unit {0}) (ChiyocoreSetupData N) =
          add_network net_stack (setup chiyo lora_rx) in
        and_then (add_node (build_handler fs (build_layers node)) c)
          λ hosted. run (run_handler node) (build hosted)

    unfoldable pub start : Fs S → Outcome R
    start fs =
        let (made, fs') = new_fs m xxh32 contact channel queue fs in
        and_then made λ chiyo.
          let (configured, (chiyo', fs'')) = configure (chiyo, fs') in
          and_then configured (host_node chiyo' fs'')
