-- ===== src/Command/Plugin/Started.antt =====
-- Which flags start a driver, and with what (cmd/truenas-csi-plugin/main.go, pkg/driver/driver.go).
use truenas_scale_csi.Base.{
  String, ◌≡◌, ◌≢◌, refl, sym, ap, ◌∙◌, ◌↔◌, ◌⊎◌, inl, inr, Bool, true, false, not, ◌&&◌, ℤ, negsuc,
  Result, ok, err, str_eq, eq_iff, eq_ℤ, eq_ℤ_iff, has_suffix, Bool-cases, Result-cases,
  if◌then◌else◌,
}
use truenas_scale_csi.Driver.{Driver}
use truenas_scale_csi.Driver.New.{Url, driver_at, new_driver, Settings}
use truenas_scale_csi.Driver.Version.{VersionInfo, Build, Runtime, get_version_json}
use truenas_scale_csi.Command.Plugin.{
  Flags, Exit, settings_of, need, need_back_end, driver_of, start_driver, print_version,
  plugin_main,
}

-- What the flags must say: texts that are not empty, a type, and what its back end needs.
pub record IsComplete (fl : Flags) : Type 0 where
  pub no_version : fl.version ≡ false
  pub node_id : fl.node_id ≢ ""
  pub endpoint : fl.endpoint ≢ ""
  pub driver_name : fl.driver_name ≢ ""
  pub back_end :
      ((fl.csi_type ≡ "nfs") × (fl.nfs_storage_path ≢ ""))
      ⊎ ((fl.csi_type ≡ "iscsi") × (fl.portal_id ≢ negsuc 0) × (fl.iscsi_storage_path ≢ ""))

eq-ne : (a b : String) → str_eq a b ≡ false → a ≢ b
eq-ne a b h e = cc (h, (eq_iff a b).1 e)

ne-eq : (a b : String) → a ≢ b → str_eq a b ≡ false
ne-eq a b h = elim (Bool-cases (str_eq a b)) [
  | inl same ↦ absurd (h ((eq_iff a b).0 same))
  | inr other ↦ other
]

ne-eq_ℤ : (a b : ℤ) → a ≢ b → eq_ℤ a b ≡ false
ne-eq_ℤ a b h = elim (Bool-cases (eq_ℤ a b)) [
  | inl same ↦ absurd (h ((eq_ℤ_iff a b).0 same))
  | inr other ↦ other
]

iscsi-ne : ◌≢◌ {A = String} "iscsi" "nfs"
iscsi-ne e = cc ((eq_iff "iscsi" "nfs").1 e)

if-ok :
    (b : Bool) (e : Exit) (rest : Result Exit Driver) (d : Driver)
    → (if b then err e else rest) ≡ ok d
    → (b ≡ false) × (rest ≡ ok d)
if-ok true e rest d h = cc h
if-ok false e rest d h = (refl, h)

need-ok :
    {A : Type 0} (b : Bool) (message : String) (rest : Result Exit A) (a : A)
    → need b message rest ≡ ok a
    → (b ≡ false) × (rest ≡ ok a)
unfolding need
need-ok true message rest a h = cc h
need-ok false message rest a h = (refl, h)

-- The flags of the back end that are there.
need_back_end-ok :
    {A : Type 0} (fl : Flags) (rest : Result Exit A) (a : A)
    → (not (str_eq fl.csi_type "nfs") && not (str_eq fl.csi_type "iscsi")) ≡ false
    → need_back_end fl (str_eq fl.csi_type "nfs") rest ≡ ok a
    → (((fl.csi_type ≡ "nfs") × (fl.nfs_storage_path ≢ ""))
        ⊎ ((fl.csi_type ≡ "iscsi") × (fl.portal_id ≢ negsuc 0) × (fl.iscsi_storage_path ≢ "")))
      × (rest ≡ ok a)
unfolding need_back_end
need_back_end-ok fl rest a typed h = elim (Bool-cases (str_eq fl.csi_type "nfs")) [
  | inl nfs ↦
      let (path, r) = need-ok (str_eq fl.nfs_storage_path "") _ rest a (rw nfs at h) in
      (inl ((eq_iff fl.csi_type "nfs").0 nfs, eq-ne fl.nfs_storage_path "" path), r)
  | inr other ↦ elim (Bool-cases (str_eq fl.csi_type "iscsi")) [
    | inr neither ↦ cc (rw (other, neither) at typed)
    | inl iscsi ↦
        let (portal, h') = need-ok (eq_ℤ fl.portal_id (negsuc 0)) _ _ a (rw other at h) in
        let (path, r) = need-ok (str_eq fl.iscsi_storage_path "") _ rest a h' in
        (
          inr (
            (eq_iff fl.csi_type "iscsi").0 iscsi,
            (λ e. cc (portal, (eq_ℤ_iff fl.portal_id (negsuc 0)).1 e)),
            eq-ne fl.iscsi_storage_path "" path,
          ),
          r,
        )
  ]
]

module _ (parse_url : String → Result String Url) (x : Settings) where
  new_driver-ok :
      (d : Driver)
      → driver_of (new_driver parse_url x) ≡ ok d
      → (u : Url) × (parse_url x.base_url ≡ ok u)
        × (has_suffix u.path "api/v2.0" ≡ true)
        × (d ≡ driver_at x u)
  unfolding new_driver
  new_driver-ok d h = elim (Result-cases (parse_url x.base_url)) [
    | inl (e, bad) ↦ cc (rw bad at h)
    | inr (u, parsed) ↦ elim (Bool-cases (has_suffix u.path "api/v2.0")) [
      | inr other ↦ cc (rw (parsed, other) at h)
      | inl fits ↦ (u, parsed, fits, ok-injective (sym (rw (parsed, fits) at h)))
    ]
  ]
    where
      ok-injective : {a b : Driver} → ◌≡◌ {A = Result Exit Driver} (ok a) (ok b) → a ≡ b
      ok-injective e = cc e

module _ (parse_url : String → Result String Url) (token : String) (fl : Flags) where
  -- The URL parses, ends in the path of the API, and gives the driver.
  abbrev pub Built : Driver → Type 0
  Built d =
      (u : Url) × (parse_url fl.truenas_url ≡ ok u)
      × (has_suffix u.path "api/v2.0" ≡ true)
      × (d ≡ driver_at (settings_of token fl) u)

  start_driver-ok :
      (d : Driver)
      → fl.version ≡ false
      → start_driver parse_url token fl ≡ ok d
      → IsComplete fl × Built d
  unfolding start_driver
  start_driver-ok d plain h =
      let (node_id, h1) = need-ok (str_eq fl.node_id "") _ _ d h in
      let (typed, h2) =
        need-ok (not (str_eq fl.csi_type "nfs") && not (str_eq fl.csi_type "iscsi")) _ _ d h1 in
      let (back_end, h3) = need_back_end-ok fl _ d typed h2 in
      let (endpoint, h4) = need-ok (str_eq fl.endpoint "") _ _ d h3 in
      let (driver_name, h5) = need-ok (str_eq fl.driver_name "") _ _ d h4 in
      (
        record {
          no_version = plain;
          node_id = eq-ne fl.node_id "" node_id;
          endpoint = eq-ne fl.endpoint "" endpoint;
          driver_name = eq-ne fl.driver_name "" driver_name;
          back_end = back_end;
        },
        new_driver-ok parse_url (settings_of token fl) d h5,
      )

  start_driver_complete :
      (u : Url)
      → IsComplete fl
      → parse_url fl.truenas_url ≡ ok u
      → has_suffix u.path "api/v2.0" ≡ true
      → start_driver parse_url token fl ≡ ok (driver_at (settings_of token fl) u)
  unfolding start_driver need need_back_end new_driver
  start_driver_complete u c parsed fits = elim c.back_end [
    | inl (nfs, path) ↦
        rw
          (
            ne-eq fl.node_id "" c.node_id,
            (eq_iff fl.csi_type "nfs").1 nfs,
            ne-eq fl.nfs_storage_path "" path,
            ne-eq fl.endpoint "" c.endpoint,
            ne-eq fl.driver_name "" c.driver_name,
            parsed,
            fits,
          )
          refl
    | inr (iscsi, portal, path) ↦
        rw
          (
            ne-eq fl.node_id "" c.node_id,
            ne-eq fl.csi_type "nfs" (λ e. iscsi-ne (sym iscsi ∙ e)),
            (eq_iff fl.csi_type "iscsi").1 iscsi,
            ne-eq_ℤ fl.portal_id (negsuc 0) portal,
            ne-eq fl.iscsi_storage_path "" path,
            ne-eq fl.endpoint "" c.endpoint,
            ne-eq fl.driver_name "" c.driver_name,
            parsed,
            fits,
          )
          refl
  ]

  -- The program goes on to run a driver exactly if the version is not asked for, the node id, the endpoint
  -- and the driver name are given, the type is "nfs" with its storage path or "iscsi" with its storage path
  -- and a portal, and the URL parses with a path that ends in "api/v2.0"; the driver then has the flags'
  -- values and the URL's host.
  pub plugin_main_iff :
      (marshal : VersionInfo → Result String String) (b : Build) (r : Runtime) (d : Driver)
      → (plugin_main parse_url marshal b r token fl ≡ ok d) ↔ (IsComplete fl × Built d)
  unfolding plugin_main
  plugin_main_iff marshal b r d = (
    λ h. let (plain, h') = if-ok fl.version _ _ d h in start_driver-ok d plain h',
    λ (c, (u, parsed, fits, same)).
        ap
          (λ v.
            if v
            then err (print_version (get_version_json marshal b r))
            else start_driver parse_url token fl)
          c.no_version
        ∙ start_driver_complete u c parsed fits
        ∙ ap ok (sym same),
  )
