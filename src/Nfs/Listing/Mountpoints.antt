-- ===== src/Nfs/Listing/Mountpoints.antt =====
-- The map from mount points to datasets that `nfsListVolumes` (pkg/driver/nfs.go) fills.
use truenas_scale_csi.Base.{
  String, ◌≡◌, ◌⊎◌, inl, inr, some, List, [], ◌∷◌, Elem, Bool-cases, str_eq, eq_iff, eq_refl, arith,
}
use truenas_scale_csi.Csi.{lookup}
use truenas_scale_csi.TrueNas.{Dataset}
use truenas_scale_csi.Nfs.{by_mountpoint}

-- What the map holds came from the list, under its own mount point, or was there before.
pub lookup-by_mountpoint :
    (found : List (String × Dataset)) (ds : List Dataset) (path : String) (x : Dataset)
    → lookup path (by_mountpoint found ds) ≡ some x
    → (Elem x ds × (x.mountpoint ≡ path)) ⊎ (lookup path found ≡ some x)
unfolding by_mountpoint
lookup-by_mountpoint found [] path x h = inr h
lookup-by_mountpoint found (y ∷ ds) path x h =
    elim (lookup-by_mountpoint ((y.mountpoint, y) ∷ found) ds path x h) [
      | inl (listed, e) ↦ inl (inr listed, e)
      | inr e ↦ unfold lookup in ground (arith, eq_iff y.mountpoint path)
    ]

by_mountpoint-keeps :
    (found : List (String × Dataset)) (ds : List Dataset) (path : String) (x : Dataset)
    → lookup path found ≡ some x
    → (y : Dataset) × (lookup path (by_mountpoint found ds) ≡ some y)
unfolding by_mountpoint
by_mountpoint-keeps found [] path x h = (x, h)
by_mountpoint-keeps found (z ∷ ds) path x h = elim (Bool-cases (str_eq z.mountpoint path)) [
  | inl same ↦ by_mountpoint-keeps _ ds path z (unfold lookup in rw same)
  | inr other ↦ by_mountpoint-keeps _ ds path x (unfold lookup in rw other h)
]

-- Every mount point of the list has a dataset in the map.
pub by_mountpoint-all :
    (found : List (String × Dataset)) (ds : List Dataset) (x : Dataset)
    → Elem x ds
    → (y : Dataset) × (lookup x.mountpoint (by_mountpoint found ds) ≡ some y)
unfolding by_mountpoint
by_mountpoint-all found [] x h = absurd h
by_mountpoint-all found (z ∷ ds) x (inl same) =
    by_mountpoint-keeps _ ds x.mountpoint z (unfold lookup in rw (same, eq_refl z.mountpoint))
by_mountpoint-all found (z ∷ ds) x (inr later) = by_mountpoint-all _ ds x later
