-- ===== src/Locks/Order.antt =====
-- What a task can hold.
use chiyocore.Base.{
  ◌≡◌, refl, sym, subst, arith, Bool, true, false, ◌&&◌, not, Option, none, some, inl, inr, ◌⊎◌,
}
use chiyocore.Locks.{
  Mode, reading, writing, Store, contacts, channels, Role, receive, serve, retry, Want, layer_lock,
  mesh_lock, store_lock, own_lock, Task, Event, ask, grant, drop_store, drop_mesh, drop_layer,
  is_some, is_writing, asks, role_asks, receive_asks, serve_asks, retry_asks, granted, perform,
  guard, may_drop_mesh,
}

-- The locks of a receiving task are taken in order; a command that writes the node holds no store; a retry
-- only reads the node, and holds a store only meanwhile.
abbrev pub Ordered : Role → Bool → Option Mode → Option (Store × Mode) → Type 0
Ordered receive layer mesh store =
    (is_some mesh ≡ true → layer ≡ true) × (is_some store ≡ true → is_writing mesh ≡ true)
Ordered serve layer mesh store =
    (is_some mesh ≡ true → layer ≡ true) × (is_some store ≡ true → layer ≡ true)
Ordered retry layer mesh store =
    (layer ≡ false) × (is_writing mesh ≡ false) × (is_some store ≡ true → is_some mesh ≡ true)

abbrev pub Awaited : Task → Option Want → Type 0
Awaited t none = Unit
Awaited t (some w) = asks t w ≡ true

abbrev pub IsOrdered : Task → Type 0
IsOrdered t = Ordered t.role t.layer t.mesh t.store × Awaited t t.wants

abbrev Granted : Role → Want → Bool → Option Mode → Option (Store × Mode) → Type 0
Granted r layer_lock layer mesh store = Ordered r true mesh store
Granted r (mesh_lock m) layer mesh store = Ordered r layer (some m) store
Granted r (store_lock s m) layer mesh store = Ordered r layer mesh (some (s, m))
Granted r own_lock layer mesh store = Ordered r layer mesh store

asked-Granted :
    (r : Role) (w : Want) (layer : Bool) (mesh : Option Mode) (store : Option (Store × Mode))
    → Ordered r layer mesh store
    → role_asks r w layer mesh store ≡ true
    → Granted r w layer mesh store
unfolding role_asks receive_asks serve_asks retry_asks
asked-Granted r own_lock layer mesh store o h = o
asked-Granted receive layer_lock layer mesh store o h = ((λ e. refl), o.1)
asked-Granted receive (mesh_lock reading) layer mesh store o h = absurd (ground arith)
asked-Granted receive (mesh_lock writing) layer mesh store o h = ground arith
asked-Granted receive (store_lock s m) layer mesh store o h = ground arith
asked-Granted serve layer_lock layer mesh store o h = ((λ e. refl), λ e. refl)
asked-Granted serve (mesh_lock reading) layer mesh none o h = ground arith
asked-Granted serve (mesh_lock reading) layer mesh (some (s, reading)) o h = ground arith
asked-Granted serve (mesh_lock reading) layer mesh (some (s, writing)) o h = absurd (ground arith)
asked-Granted serve (mesh_lock writing) layer mesh store o h = ground arith
asked-Granted serve (store_lock s m) layer mesh store o h = ground arith
asked-Granted retry layer_lock layer mesh store o h = absurd (ground arith)
asked-Granted retry (mesh_lock reading) layer mesh store o h = (o.0, refl, λ e. refl)
asked-Granted retry (mesh_lock writing) layer mesh store o h = absurd (ground arith)
asked-Granted retry (store_lock contacts writing) layer mesh store o h = ground arith
asked-Granted retry (store_lock contacts reading) layer mesh store o h = absurd (ground arith)
asked-Granted retry (store_lock channels m) layer mesh store o h = absurd (ground arith)

granted-IsOrdered : (w : Want) (t : Task) → IsOrdered t → asks t w ≡ true → IsOrdered (granted w t)
unfolding granted
granted-IsOrdered layer_lock t o h =
    (asked-Granted t.role layer_lock t.layer t.mesh t.store o.0 h, tt)
granted-IsOrdered (mesh_lock m) t o h =
    (asked-Granted t.role (mesh_lock m) t.layer t.mesh t.store o.0 h, tt)
granted-IsOrdered (store_lock s m) t o h =
    (asked-Granted t.role (store_lock s m) t.layer t.mesh t.store o.0 h, tt)
granted-IsOrdered own_lock t o h = (o.0, tt)

drop_store-Ordered :
    (r : Role) (layer : Bool) (mesh : Option Mode) (store : Option (Store × Mode))
    → Ordered r layer mesh store
    → Ordered r layer mesh none
drop_store-Ordered receive layer mesh store o = (o.0, λ e. absurd (ground arith))
drop_store-Ordered serve layer mesh store o = (o.0, λ e. absurd (ground arith))
drop_store-Ordered retry layer mesh store o = (o.0, o.1, λ e. absurd (ground arith))

drop_mesh-Ordered :
    (r : Role) (layer : Bool) (mesh : Option Mode) (store : Option (Store × Mode))
    → Ordered r layer mesh store
    → may_drop_mesh r store ≡ true
    → Ordered r layer none store
drop_mesh-Ordered receive layer mesh store o h = ground arith
drop_mesh-Ordered serve layer mesh store o h = ((λ e. absurd (ground arith)), o.1)
drop_mesh-Ordered retry layer mesh store o h = ground arith

drop_layer-Ordered :
    (r : Role) (layer : Bool) (mesh : Option Mode) (store : Option (Store × Mode))
    → Ordered r layer mesh store
    → (not (is_some mesh) && not (is_some store)) ≡ true
    → Ordered r false mesh store
drop_layer-Ordered receive layer mesh store o h = ground arith
drop_layer-Ordered serve layer mesh store o h = ground arith
drop_layer-Ordered retry layer mesh store o h = (refl, o.1, o.2)

-- A task after a step: it is ordered, of the same node, and has its layers locked only if it had, or if
-- their lock was free.
abbrev pub Performed : Task → (Want → Bool) → Task → Type 0
Performed t free t' =
    IsOrdered t'
    × (t'.node ≡ t.node)
    × (t'.layer ≡ true → (t.layer ≡ true) ⊎ (free layer_lock ≡ true))

guard-some : (b : Bool) (t t' : Task) → guard b t ≡ some t' → (b ≡ true) × (t ≡ t')
guard-some true t t' h = (refl, ground arith)
guard-some false t t' h = absurd (ground arith)

granted-Performed :
    (w : Want) (free : Want → Bool) (t : Task)
    → IsOrdered t
    → asks t w ≡ true
    → free w ≡ true
    → Performed t free (granted w t)
unfolding granted
granted-Performed layer_lock free t o h k = (granted-IsOrdered layer_lock t o h, refl, λ e. inr k)
granted-Performed (mesh_lock m) free t o h k =
    (granted-IsOrdered (mesh_lock m) t o h, refl, λ e. inl e)
granted-Performed (store_lock s m) free t o h k =
    (granted-IsOrdered (store_lock s m) t o h, refl, λ e. inl e)
granted-Performed own_lock free t o h k = (granted-IsOrdered own_lock t o h, refl, λ e. inl e)

pub perform-Performed :
    (e : Event) (free : Want → Bool) (t t' : Task) (o : Option Want)
    → t.wants ≡ o
    → IsOrdered t
    → perform e free t o ≡ some t'
    → Performed t free t'
unfolding perform
perform-Performed (ask w) free t t' none k (order, awaited) h =
    let (asked, same) = guard-some (asks t w) (record t { wants = some w }) t' h in
    subst (Performed t free) same ((order, asked), refl, λ e. inl e)
perform-Performed grant free t t' (some w) k (order, awaited) h =
    let (clear, same) = guard-some (free w) (granted w t) t' h in
    subst (Performed t free) same
      (granted-Performed w free t (order, awaited) (subst (Awaited t) k awaited) clear)
perform-Performed drop_store free t t' none k (order, awaited) h =
    let same : record t { store = none } ≡ t' = ground arith in
    subst (Performed t free) same (
      (
        drop_store-Ordered t.role t.layer t.mesh t.store order,
        subst (Awaited (record t { store = none })) (sym k) tt,
      ),
      refl,
      λ e. inl e,
    )
perform-Performed drop_mesh free t t' none k (order, awaited) h =
    let (may, same) = guard-some (may_drop_mesh t.role t.store) (record t { mesh = none }) t' h in
    subst (Performed t free) same (
      (
        drop_mesh-Ordered t.role t.layer t.mesh t.store order may,
        subst (Awaited (record t { mesh = none })) (sym k) tt,
      ),
      refl,
      λ e. inl e,
    )
perform-Performed drop_layer free t t' none k (order, awaited) h =
    let (may, same) =
      guard-some (not (is_some t.mesh) && not (is_some t.store)) (record t { layer = false }) t'
        h in
    subst (Performed t free) same (
      (
        drop_layer-Ordered t.role t.layer t.mesh t.store order may,
        subst (Awaited (record t { layer = false })) (sym k) tt,
      ),
      refl,
      λ e. absurd (ground arith),
    )
perform-Performed (ask w) free t t' (some w') k o h = absurd (ground arith)
perform-Performed grant free t t' none k o h = absurd (ground arith)
perform-Performed drop_store free t t' (some w) k o h = absurd (ground arith)
perform-Performed drop_mesh free t t' (some w) k o h = absurd (ground arith)
perform-Performed drop_layer free t t' (some w) k o h = absurd (ground arith)
