-- ===== src/Locks.antt =====
-- The tasks of the firmware that wait for each other, and the locks that they wait for: for every node the
-- task of `run_handler` (firmware/chiyocore/src/lora.rs, with `with_layer` of simple_mesh/layer.rs), the
-- task `tcp_companion` (firmware/companion/src/companion_protocol/tcp.rs, with the commands of
-- companionv2/companion_proto_handler.rs), and the tasks `send_with_retry` (simple_mesh/mod.rs).
-- A node has the mutex of its companion and the `RwLock` of its `SimpleMesh`; the nodes share those of the
-- contacts and the channels. The locks below these, of the filesystem, the logs and the shared keys, are
-- held over no wait for one of these, and so are not here, but for that of the filesystem where `delete`
-- waits for it while it holds it. The locks themselves are those of the crate embassy_sync, an interface.
pub mod Order
pub mod Sound
pub mod Waits
pub mod Progress
use chiyocore.Base.{
  ℕ, zero, suc, ◌<◌, ◌≡◌, Bool, true, false, ◌&&◌, ◌||◌, not, Option, none, some, ◌==◌,
  if◌then◌else◌,
}

pub data Mode : Type 0 where
  reading writing : Mode

pub data Store : Type 0 where
  contacts channels : Store

pub data Role : Type 0 where
  receive serve retry : Role

-- `own_lock` is one that the task holds itself: the mutex of the filesystem, in its `delete`.
pub data Want : Type 0 where
  layer_lock : Want
  mesh_lock : Mode → Want
  store_lock : Store → Mode → Want
  own_lock : Want

-- What a task holds, and what it waits for.
pub record Task : Type 0 where
  pub role : Role
  pub node : ℕ
  pub layer : Bool
  pub mesh : Option Mode
  pub store : Option (Store × Mode)
  pub wants : Option Want

abbrev pub is_some : {A : Type 0} → Option A → Bool
is_some none = false
is_some (some _) = true

abbrev pub is_writing : Option Mode → Bool
is_writing (some writing) = true
is_writing _ = false

-- `with_layer` locks the layers, `call_me` then writes the node, and its methods lock one store at a time.
unfoldable pub receive_asks : Want → Bool → Option Mode → Option (Store × Mode) → Bool
receive_asks layer_lock layer mesh store = not layer
receive_asks (mesh_lock reading) layer mesh store = false
receive_asks (mesh_lock writing) layer mesh store = layer && not (is_some mesh)
receive_asks (store_lock s m) layer mesh store = is_writing mesh && not (is_some store)
receive_asks own_lock layer mesh store = false

-- A command locks a store, or reads the node, also while it reads a store; `set_advert_name` writes it. With
-- the contacts locked for writing, `remove_contact` calls `delete`, which waits for its own lock.
unfoldable pub serve_asks : Want → Bool → Option Mode → Option (Store × Mode) → Bool
serve_asks layer_lock layer mesh store = not layer
serve_asks (mesh_lock reading) layer mesh (some (s, writing)) = false
serve_asks (mesh_lock reading) layer mesh store = layer && not (is_some mesh)
serve_asks (mesh_lock writing) layer mesh store =
    layer && (not (is_some mesh) && not (is_some store))
serve_asks (store_lock s m) layer mesh store = layer && (not (is_some mesh) && not (is_some store))
serve_asks own_lock layer mesh (some (contacts, writing)) = layer && not (is_some mesh)
serve_asks own_lock layer mesh store = false

-- An attempt reads the node, and the reset of the path writes the contacts meanwhile.
unfoldable pub retry_asks : Want → Bool → Option Mode → Option (Store × Mode) → Bool
retry_asks (mesh_lock reading) layer mesh store = not (is_some mesh)
retry_asks (store_lock contacts writing) layer mesh store = is_some mesh && not (is_some store)
retry_asks _ layer mesh store = false

unfoldable pub role_asks : Role → Want → Bool → Option Mode → Option (Store × Mode) → Bool
role_asks receive = receive_asks
role_asks serve = serve_asks
role_asks retry = retry_asks

abbrev pub asks : Task → Want → Bool
asks t w = role_asks t.role w t.layer t.mesh t.store

abbrev pub same_store : Store → Store → Bool
same_store contacts contacts = true
same_store channels channels = true
same_store _ _ = false

abbrev pub exclude : Mode → Mode → Bool
exclude reading reading = false
exclude _ _ = true

abbrev pub mode_clash : Mode → Option Mode → Bool
mode_clash m none = false
mode_clash m (some m') = exclude m m'

abbrev pub store_clash : Store → Mode → Option (Store × Mode) → Bool
store_clash s m none = false
store_clash s m (some (s', m')) = same_store s s' && exclude m m'

-- Whether another task holds what a task of this node waits for.
unfoldable pub clashes : ℕ → Want → Task → Bool
clashes node layer_lock u = (node == u.node) && u.layer
clashes node (mesh_lock m) u = (node == u.node) && mode_clash m u.mesh
clashes node (store_lock s m) u = store_clash s m u.store
clashes node own_lock u = false

-- Whether one of the first `n` tasks satisfies a test.
unfoldable pub any : ℕ → (ℕ → Bool) → Bool
any zero p = false
any (suc n) p = p n || any n p

abbrev pub is_own : Want → Bool
is_own own_lock = true
is_own _ = false

-- Whether the lock that the task `i` of `n` waits for is free. One that it holds itself is not.
unfoldable pub clear : ℕ → (ℕ → Task) → ℕ → Want → Bool
clear n s i w = not (is_own w) && not (any n (λ j. not (j == i) && clashes (s i).node w (s j)))

-- What the crate embassy_sync answers the task `i` of `n` that waits for a lock: whether it is granted.
abbrev pub Grants : Type 0
Grants = ℕ → (ℕ → Task) → ℕ → Want → Bool

-- What is documented of the locks: a mutex has one holder, and an `RwLock` many readers or one writer; and a
-- lock is granted to a task that waits for it when it is free, since no other task is given priority.
pub record IsLawful (grants : Grants) : Type 0 where
  pub exclusive :
      (n : ℕ) (s : ℕ → Task) (i : ℕ) (w : Want) → grants n s i w ≡ true → clear n s i w ≡ true
  pub available :
      (n : ℕ) (s : ℕ → Task) (i : ℕ) (w : Want) → clear n s i w ≡ true → grants n s i w ≡ true

unfoldable pub granted : Want → Task → Task
granted layer_lock t = record t { layer = true; wants = none }
granted (mesh_lock m) t = record t { mesh = some m; wants = none }
granted (store_lock s m) t = record t { store = some (s, m); wants = none }
granted own_lock t = record t { wants = none }

-- What a task does: it waits for a lock, is granted it, or drops a guard.
pub data Event : Type 0 where
  ask : Want → Event
  grant drop_store drop_mesh drop_layer : Event

abbrev pub guard : Bool → Task → Option Task
guard true t = some t
guard false t = none

-- Only a command drops the node before a store.
abbrev pub may_drop_mesh : Role → Option (Store × Mode) → Bool
may_drop_mesh serve store = true
may_drop_mesh _ store = not (is_some store)

-- A task that waits does nothing else. One that does not may go on to drop a guard: the calls that it makes
-- under a lock are taken to return, but for waits for the locks here.
unfoldable pub perform : Event → (Want → Bool) → Task → Option Want → Option Task
perform (ask w) free t none = guard (asks t w) (record t { wants = some w })
perform grant free t (some w) = guard (free w) (granted w t)
perform drop_store free t none = some (record t { store = none })
perform drop_mesh free t none = guard (may_drop_mesh t.role t.store) (record t { mesh = none })
perform drop_layer free t none =
    guard (not (is_some t.mesh) && not (is_some t.store)) (record t { layer = false })
perform _ free t _ = none

abbrev pub update : (ℕ → Task) → ℕ → Task → ℕ → Task
update s i t j = if j == i then t else s j

-- `n` tasks, of any roles and nodes.
abbrev pub starting : (ℕ → Role) → (ℕ → ℕ) → ℕ → Task
starting role node i = record {
  role = role i;
  node = node i;
  layer = false;
  mesh = none;
  store = none;
  wants = none;
}

-- What they can come to, in any interleaving.
pub data Reach (grants : Grants) (n : ℕ) (role : ℕ → Role) (node : ℕ → ℕ)
    : (ℕ → Task) → Type 0 where
  start : Reach grants n role node (starting role node)
  later :
      {s : ℕ → Task} {t : Task} (i : ℕ) (e : Event)
      → Reach grants n role node s
      → i < n
      → perform e (grants n s i) (s i) (s i).wants ≡ some t
      → Reach grants n role node (update s i t)
