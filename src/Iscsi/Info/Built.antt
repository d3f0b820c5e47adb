-- ===== src/Iscsi/Info/Built.antt =====
-- A disk that `getISCSIInfo` reads always gives `buildISCSIConnector` a connector (pkg/driver/iscsi_node_iscsi.go).
use truenas_scale_csi.Base.{
  String, ◌≡◌, refl, subst, inl, inr, Bool, false, ◌||◌, some, List, ◌∷◌, map, ok, Result, str_eq,
  Bool-cases, Option-cases, Result-cases, nat_eq, length, arith,
}
use truenas_scale_csi.Csi.{Dict}
use truenas_scale_csi.Iscsi.Info.{
  Json, IscsiDisk, Connector, bind, at, atoi, parse_secret, parse_session_secret,
  parse_discovery_secret, get_iscsi_info, build_iscsi_connector, portal_mounter,
}

bind-ok :
    {A B : Type 0} (r : Result String A) (f : A → Result String B) (b : B)
    → bind r f ≡ ok b
    → (a : A) × (r ≡ ok a) × (f a ≡ ok b)
bind-ok r f b h = elim (Result-cases r) [
  | inl (e, bad) ↦ cc (rw bad at h)
  | inr (a, fine) ↦ (a, fine, rw fine at h)
]

or-false : (a b c : Bool) → (a || b || c) ≡ false → b ≡ false
or-false a b c h = elim (Bool-cases a) [
  | inl yes' ↦ cc (rw yes' at h)
  | inr no' ↦ elim (Bool-cases b) [ inl yes' ↦ cc (rw (no', yes') at h) | inr no'' ↦ no'' ]
]

ok-injective : (a b : IscsiDisk) → ◌≡◌ {A = Result String IscsiDisk} (ok a) (ok b) → a ≡ b
ok-injective a b h = cc h

nonempty-eq : (x : String) (xs : List String) → nat_eq (length (x ∷ xs)) 0 ≡ false
nonempty-eq x xs = ground arith

module _ (J : Json) where
  get_iscsi_info_lem :
      (volume_id : String) (context : Dict) (info : IscsiDisk)
      → get_iscsi_info J volume_id context ≡ ok info
      → (info.vol_name ≡ volume_id)
        × (info.iqn ≡ at context "iqn")
        × (str_eq info.iqn "" ≡ false)
        × (nat_eq (length info.portals) 0 ≡ false)
  unfolding get_iscsi_info
  get_iscsi_info_lem volume_id context info h =
      elim (Bool-cases (
        str_eq (at context "targetPortal") ""
        || str_eq (at context "iqn") ""
        || str_eq (at context "lun") "")) [
          | inl missing ↦ cc (rw missing at h)
          | inr there ↦
              let secret = parse_secret J (at context "secret") in
              let (session, a, h1) = bind-ok (parse_session_secret secret) _ info (rw there at h) in
              let (discovery, b, h2) = bind-ok (parse_discovery_secret secret) _ info h1 in
              let (portals, c, h3) = bind-ok (J.unmarshal_list (at context "portals")) _ info h2 in
              let (l, d, h4) = bind-ok (atoi J (at context "lun")) _ info h3 in
              subst
                (λ (i : IscsiDisk).
                  (i.vol_name ≡ volume_id)
                  × (i.iqn ≡ at context "iqn")
                  × (str_eq i.iqn "" ≡ false)
                  × (nat_eq (length i.portals) 0 ≡ false))
                (ok-injective _ info h4)
                (
                  refl,
                  refl,
                  or-false _ _ _ there,
                  nonempty-eq (portal_mounter (at context "targetPortal"))
                      (map portal_mounter portals),
                )
        ]

  pub get_iscsi_info-built :
      (volume_id : String) (context : Dict) (info : IscsiDisk)
      → str_eq volume_id "" ≡ false
      → get_iscsi_info J volume_id context ≡ ok info
      → (c : Connector) × (build_iscsi_connector info ≡ some c)
  unfolding build_iscsi_connector
  get_iscsi_info-built volume_id context info named h =
      let (name, _, iqn, portals) = get_iscsi_info_lem volume_id context info h in
      let named' : str_eq info.vol_name "" ≡ false = rw name named in
      elim (Option-cases (build_iscsi_connector info)) [
        | inl bad ↦ cc (rw (named', iqn, portals) at bad)
        | inr found ↦ found
      ]
