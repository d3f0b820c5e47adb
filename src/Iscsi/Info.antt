-- ===== src/Iscsi/Info.antt =====
-- What the iSCSI node operations read of a request, up to the connector: the pure part of
-- pkg/driver/iscsi_node_iscsi.go. `encoding/json` and the error texts of `strconv.Atoi` are a parameter.
pub mod Auth
pub mod Built
pub mod Context
use truenas_scale_csi.Base.{
  ℕ, zero, suc, ◌+◌, ◌-◌, ◌%◌, ◌^◌, String, ◌<>◌, Bool, true, false, not, ◌&&◌, ◌||◌, Option, none,
  some, List, [], ◌∷◌, map, ℤ, pos, negsuc, neg, ltb, Result, ok, err, str_eq, eq_ℤ, contains,
  get_or, parse_int, length, nat_eq, if◌then◌else◌,
}
use truenas_scale_csi.Csi.{Dict, lookup}

pub record Json : Type 0 where
  -- `json.Unmarshal` into a slice of strings, with the text of its error.
  pub unmarshal_list : String → Result String (List String)
  -- `json.Unmarshal` into a map of strings; `none` is an error.
  pub unmarshal_map : String → Option Dict
  -- `Error()` of what `strconv.Atoi` returns for a text that it refuses.
  pub atoi_error_text : String → String

-- `iscsiLib.Secrets` (github.com/kubernetes-csi/csi-lib-iscsi).
pub record Secrets : Type 0 where
  pub secrets_type : String
  pub user_name : String
  pub password : String
  pub user_name_in : String
  pub password_in : String

abbrev pub no_secrets : Secrets
no_secrets = record {
  secrets_type = "";
  user_name = "";
  password = "";
  user_name_in = "";
  password_in = "";
}

-- `s == iscsiLib.Secrets{}`
abbrev pub is_no_secrets : Secrets → Bool
is_no_secrets s =
    str_eq s.secrets_type ""
    && str_eq s.user_name ""
    && str_eq s.password ""
    && str_eq s.user_name_in ""
    && str_eq s.password_in ""

-- `parseSecret`: nil where the text does not parse.
abbrev pub parse_secret : Json → String → Dict
parse_secret J secret_params = get_or (J.unmarshal_map secret_params) []

-- The value of a key that must be there.
abbrev pub needed_of :
    {A : Type 0} → String → Option String → (String → Result String A) → Result String A
needed_of key none f = err (key <> " not found in secret")
needed_of key (some v) f = f v

abbrev pub needed : {A : Type 0} → Dict → String → (String → Result String A) → Result String A
needed m key f = needed_of key (lookup key m) f

-- `parseSessionSecret` and `parseDiscoverySecret`, which differ in the section of their keys.
unfoldable pub parse_auth : String → Dict → Result String Secrets
parse_auth prefix secret_params =
    if nat_eq (length secret_params) 0
    then ok no_secrets
    else needed secret_params (prefix <> ".auth.username") (λ user_name.
      needed secret_params (prefix <> ".auth.password") (λ password.
        needed secret_params (prefix <> ".auth.username_in") (λ user_name_in.
          needed secret_params (prefix <> ".auth.password_in") (λ password_in. ok (record {
            secrets_type = "chap";
            user_name = user_name;
            password = password;
            user_name_in = user_name_in;
            password_in = password_in;
          })))))

abbrev pub parse_session_secret : Dict → Result String Secrets
parse_session_secret m = parse_auth "node.session" m

abbrev pub parse_discovery_secret : Dict → Result String Secrets
parse_discovery_secret m = parse_auth "node.sendtargets" m

-- `portalMounter`: the default port, where the text has no colon.
unfoldable pub portal_mounter : String → String
portal_mounter portal = if contains portal ":" then portal else portal <> ":3260"

-- `int32(l)`
abbrev pub to_int32 : ℤ → ℤ
to_int32 (pos n) = let m = n % 2 ^ 32 in if ltb m (2 ^ 31) then pos m else neg (2 ^ 32 - m)
to_int32 (negsuc n) =
    let m = n % 2 ^ 32 in if ltb m (2 ^ 31) then negsuc m else pos (2 ^ 32 - 1 - m)

pub record IscsiDisk : Type 0 where
  pub portals : List String
  pub iqn : String
  pub lun : ℤ
  pub iface : String
  pub chap_discovery : Bool
  pub chap_session : Bool
  pub secret : Dict
  pub session_secret : Secrets
  pub discovery_secret : Secrets
  pub initiator_name : String
  pub vol_name : String

-- `m[k]` of a map of strings: "" for a missing key.
abbrev pub at : Dict → String → String
at m k = get_or (lookup k m) ""

abbrev pub bind : {A B : Type 0} → Result String A → (A → Result String B) → Result String B
bind (ok a) f = f a
bind (err e) f = err e

-- `strconv.Atoi` of the LUN.
abbrev pub atoi : Json → String → Result String ℤ
atoi J text = elim (parse_int text) [ none ↦ err (J.atoi_error_text text) | some n ↦ ok n ]

-- `getISCSIInfo`, of a request's volume id and context.
unfoldable pub get_iscsi_info : Json → String → Dict → Result String IscsiDisk
get_iscsi_info J volume_id context =
    let tp = at context "targetPortal" in
    let iqn = at context "iqn" in
    let lun = at context "lun" in
    if str_eq tp "" || str_eq iqn "" || str_eq lun ""
    then err "ISCSI target information is missing"
    else let secret = parse_secret J (at context "secret") in
      bind (parse_session_secret secret) (λ session.
        bind (parse_discovery_secret secret) (λ discovery.
          bind (J.unmarshal_list (at context "portals")) (λ portals. bind (atoi J lun) (λ l.
            ok (record {
              portals = portal_mounter tp ∷ map portal_mounter portals;
              iqn = iqn;
              lun = to_int32 l;
              iface = at context "iscsiInterface";
              chap_discovery = str_eq (at context "discoveryCHAPAuth") "true";
              chap_session = str_eq (at context "sessionCHAPAuth") "true";
              secret = secret;
              session_secret = session;
              discovery_secret = discovery;
              initiator_name = at context "initiatorName";
              vol_name = volume_id;
            })))))

-- `iscsiLib.Connector`, with the fields that the driver sets.
pub record Connector : Type 0 where
  pub volume_name : String
  pub target_iqn : String
  pub target_portals : List String
  pub lun : ℤ
  pub do_discovery : Bool
  pub session_secrets : Secrets
  pub discovery_secrets : Secrets

-- `buildISCSIConnector`; `none` is nil. The discovery secrets are set only with the session secrets.
unfoldable pub build_iscsi_connector : IscsiDisk → Option Connector
build_iscsi_connector info =
    if str_eq info.vol_name "" || str_eq info.iqn "" || nat_eq (length info.portals) 0
    then none
    else some (record {
      volume_name = info.vol_name;
      target_iqn = info.iqn;
      target_portals = info.portals;
      lun = info.lun;
      do_discovery = true;
      session_secrets = info.session_secret;
      discovery_secrets =
          if is_no_secrets info.session_secret then no_secrets else info.discovery_secret;
    })
