-- ===== src/Locks/Waits.antt =====
-- What a task that holds a lock can wait for, and who can stand in its way.
use chiyocore.Base.{
  ℕ, ◌≡◌, refl, arith, Bool, true, false, ◌&&◌, Option, none, some, Bool-cases, inl, inr, ◌==◌,
}
use chiyocore.Locks.{
  Mode, reading, writing, Store, contacts, channels, Role, receive, serve, retry, Want, layer_lock,
  mesh_lock, store_lock, own_lock, is_own, Task, is_some, is_writing, role_asks, receive_asks,
  serve_asks, retry_asks, clashes, store_clash, mode_clash,
}
use chiyocore.Locks.Order.{Ordered, IsOrdered}

writing-some : (mesh : Option Mode) → is_writing mesh ≡ true → is_some mesh ≡ true
writing-some none h = absurd (ground arith)
writing-some (some m) h = refl

-- What a task with a store waits for, if for anything and not for its own lock: to read the node, with its layers locked.
pub store_waits :
    (r : Role) (w : Want) (layer : Bool) (mesh : Option Mode) (store : Option (Store × Mode))
    → Ordered r layer mesh store
    → is_some store ≡ true
    → role_asks r w layer mesh store ≡ true
    → is_own w ≡ false
    → (w ≡ mesh_lock reading) × (layer ≡ true)
unfolding role_asks receive_asks serve_asks retry_asks
store_waits r own_lock layer mesh store o h k d = absurd (ground arith)
store_waits receive layer_lock layer mesh store o h k d =
    absurd (ground (arith, o.0 (writing-some mesh (o.1 h))))
store_waits receive (mesh_lock reading) layer mesh store o h k d = absurd (ground arith)
store_waits receive (mesh_lock writing) layer mesh store o h k d =
    absurd (ground (arith, writing-some mesh (o.1 h)))
store_waits receive (store_lock s m) layer mesh store o h k d = absurd (ground arith)
store_waits serve layer_lock layer mesh store o h k d = absurd (ground arith)
store_waits serve (mesh_lock reading) layer mesh store o h k d = (refl, o.1 h)
store_waits serve (mesh_lock writing) layer mesh store o h k d = absurd (ground arith)
store_waits serve (store_lock s m) layer mesh store o h k d = absurd (ground arith)
store_waits retry layer_lock layer mesh store o h k d = absurd (ground arith)
store_waits retry (mesh_lock reading) layer mesh store o h k d = absurd (ground arith)
store_waits retry (mesh_lock writing) layer mesh store o h k d = absurd (ground arith)
store_waits retry (store_lock contacts writing) layer mesh store o h k d = absurd (ground arith)
store_waits retry (store_lock contacts reading) layer mesh store o h k d = absurd (ground arith)
store_waits retry (store_lock channels m) layer mesh store o h k d = absurd (ground arith)

abbrev pub for_store : Want → Bool
for_store (store_lock s m) = true
for_store _ = false

abbrev pub for_layer : Want → Bool
for_layer layer_lock = true
for_layer _ = false

-- A task with the node waits for a store, if for anything and not for its own lock.
pub mesh_waits :
    (r : Role) (w : Want) (layer : Bool) (mesh : Option Mode) (store : Option (Store × Mode))
    → Ordered r layer mesh store
    → is_some mesh ≡ true
    → role_asks r w layer mesh store ≡ true
    → is_own w ≡ false
    → for_store w ≡ true
unfolding role_asks receive_asks serve_asks retry_asks
mesh_waits r own_lock layer mesh store o h k d = absurd (ground arith)
mesh_waits receive layer_lock layer mesh store o h k d = absurd (ground arith)
mesh_waits serve layer_lock layer mesh store o h k d = absurd (ground arith)
mesh_waits retry layer_lock layer mesh store o h k d = absurd (ground arith)
mesh_waits receive (mesh_lock reading) layer mesh store o h k d = absurd (ground arith)
mesh_waits receive (mesh_lock writing) layer mesh store o h k d = absurd (ground arith)
mesh_waits serve (mesh_lock reading) layer mesh none o h k d = absurd (ground arith)
mesh_waits serve (mesh_lock reading) layer mesh (some (s, reading)) o h k d = absurd (ground arith)
mesh_waits serve (mesh_lock reading) layer mesh (some (s, writing)) o h k d = absurd (ground arith)
mesh_waits serve (mesh_lock writing) layer mesh store o h k d = absurd (ground arith)
mesh_waits retry (mesh_lock reading) layer mesh store o h k d = absurd (ground arith)
mesh_waits retry (mesh_lock writing) layer mesh store o h k d = absurd (ground arith)
mesh_waits r (store_lock s m) layer mesh store o h k d = refl

-- A task with its layers locked does not wait for them.
pub layer_waits :
    (r : Role) (w : Want) (layer : Bool) (mesh : Option Mode) (store : Option (Store × Mode))
    → layer ≡ true
    → role_asks r w layer mesh store ≡ true
    → for_layer w ≡ false
unfolding role_asks receive_asks serve_asks retry_asks
layer_waits receive layer_lock layer mesh store h k = absurd (ground arith)
layer_waits serve layer_lock layer mesh store h k = absurd (ground arith)
layer_waits retry layer_lock layer mesh store h k = absurd (ground arith)
layer_waits r (mesh_lock m) layer mesh store h k = refl
layer_waits r own_lock layer mesh store h k = refl
layer_waits r (store_lock s m) layer mesh store h k = refl

-- A task that writes the node has its layers locked.
writing-layer :
    (r : Role) (layer : Bool) (mesh : Option Mode) (store : Option (Store × Mode))
    → Ordered r layer mesh store
    → is_writing mesh ≡ true
    → layer ≡ true
writing-layer receive layer (some writing) store o h = o.0 refl
writing-layer serve layer (some writing) store o h = o.0 refl
writing-layer retry layer mesh store o h = absurd (ground arith)
writing-layer receive layer (some reading) store o h = absurd (ground arith)
writing-layer serve layer (some reading) store o h = absurd (ground arith)
writing-layer receive layer none store o h = absurd (ground arith)
writing-layer serve layer none store o h = absurd (ground arith)

pub clashes-store :
    (node : ℕ) (w : Want) (u : Task)
    → for_store w ≡ true
    → is_some u.store ≡ false
    → clashes node w u ≡ false
unfolding clashes
clashes-store node (store_lock s m) u h k = go u.store k
  where
    go : (o : Option (Store × Mode)) → is_some o ≡ false → store_clash s m o ≡ false
    go none k = refl
    go (some x) k = absurd (ground arith)
clashes-store node layer_lock u h k = absurd (ground arith)
clashes-store node (mesh_lock m) u h k = absurd (ground arith)
clashes-store node own_lock u h k = refl

pub clashes-inner :
    (node : ℕ) (w : Want) (u : Task)
    → for_layer w ≡ false
    → is_some u.mesh ≡ false
    → is_some u.store ≡ false
    → clashes node w u ≡ false
clashes-inner node (store_lock s m) u h j k = clashes-store node (store_lock s m) u refl k
clashes-inner node layer_lock u h j k = absurd (ground arith)
clashes-inner node own_lock u h j k = unfold clashes in refl
clashes-inner node (mesh_lock m) u h j k =
    unfold clashes in rw (go u.mesh j) (and_false (node == u.node))
  where
    go : (o : Option Mode) → is_some o ≡ false → mode_clash m o ≡ false
    go none k = refl
    go (some x) k = absurd (ground arith)

    and_false : (b : Bool) → (b && false) ≡ false
    and_false b = ground arith

pub clashes-free :
    (node : ℕ) (w : Want) (u : Task)
    → u.layer ≡ false
    → is_some u.mesh ≡ false
    → is_some u.store ≡ false
    → clashes node w u ≡ false
clashes-free node layer_lock u i j k = unfold clashes in ground arith
clashes-free node own_lock u i j k = unfold clashes in refl
clashes-free node (mesh_lock m) u i j k = clashes-inner node (mesh_lock m) u refl j k
clashes-free node (store_lock s m) u i j k = clashes-inner node (store_lock s m) u refl j k

-- A reader of the node does not clash with a task that has not locked the layers of the same node.
pub clashes-read :
    (node : ℕ) (u : Task)
    → IsOrdered u
    → (node ≡ u.node → u.layer ≡ false)
    → clashes node (mesh_lock reading) u ≡ false
unfolding clashes
clashes-read node u o h = elim (Bool-cases (is_writing u.mesh)) [
  | inl writes ↦ ground (arith, h, writing-layer u.role u.layer u.mesh u.store o.0 writes)
  | inr reads ↦ rw (go u.mesh reads) (and_false (node == u.node))
]
  where
    go : (o : Option Mode) → is_writing o ≡ false → mode_clash reading o ≡ false
    go none k = refl
    go (some reading) k = refl
    go (some writing) k = absurd (ground arith)

    and_false : (b : Bool) → (b && false) ≡ false
    and_false b = ground arith
