-- ===== src/Iscsi/Info/Auth.antt =====
-- `parseSessionSecret` and `parseDiscoverySecret` (pkg/driver/iscsi_node_iscsi.go): which secrets are read.
use truenas_scale_csi.Base.{
  String, ◌<>◌, ◌≡◌, refl, ◌∙◌, sym, subst, ◌↔◌, nat_eq, length, false, arith, some, ◌∷◌, Result,
  ok, Option-cases, inl, inr,
}
use truenas_scale_csi.Csi.{Dict, lookup}
use truenas_scale_csi.Iscsi.Info.{Secrets, parse_auth}

-- The map holds the four values of the section.
pub record IsAuth (prefix : String) (m : Dict) (s : Secrets) : Type 0 where
  pub secrets_type : s.secrets_type ≡ "chap"
  pub user_name : lookup (prefix <> ".auth.username") m ≡ some s.user_name
  pub password : lookup (prefix <> ".auth.password") m ≡ some s.password
  pub user_name_in : lookup (prefix <> ".auth.username_in") m ≡ some s.user_name_in
  pub password_in : lookup (prefix <> ".auth.password_in") m ≡ some s.password_in

ok-injective : {a b : Secrets} → ◌≡◌ {A = Result String Secrets} (ok a) (ok b) → a ≡ b
ok-injective h = cc h

module _ (prefix : String) (entry : String × String) (rest : Dict) where
  abbrev m : Dict
  m = entry ∷ rest

  m-nonempty : nat_eq (length m) 0 ≡ false
  m-nonempty = ground arith

  parse_auth-read :
      (u p ui pi : String)
      → lookup (prefix <> ".auth.username") m ≡ some u
      → lookup (prefix <> ".auth.password") m ≡ some p
      → lookup (prefix <> ".auth.username_in") m ≡ some ui
      → lookup (prefix <> ".auth.password_in") m ≡ some pi
      → parse_auth prefix m
        ≡ ok (record {
          secrets_type = "chap";
          user_name = u;
          password = p;
          user_name_in = ui;
          password_in = pi;
        })
  unfolding parse_auth
  parse_auth-read u p ui pi a b c d = rw (m-nonempty, a, b, c, d)

  parse_auth-IsAuth : (s : Secrets) → parse_auth prefix m ≡ ok s → IsAuth prefix m s
  unfolding parse_auth
  parse_auth-IsAuth s h = elim (Option-cases (lookup (prefix <> ".auth.username") m)) [
    | inl missing ↦ cc (rw (m-nonempty, missing) at h)
    | inr (u, a) ↦ elim (Option-cases (lookup (prefix <> ".auth.password") m)) [
      | inl missing ↦ cc (rw (m-nonempty, a, missing) at h)
      | inr (p, b) ↦ elim (Option-cases (lookup (prefix <> ".auth.username_in") m)) [
        | inl missing ↦ cc (rw (m-nonempty, a, b, missing) at h)
        | inr (ui, c) ↦ elim (Option-cases (lookup (prefix <> ".auth.password_in") m)) [
          | inl missing ↦ cc (rw (m-nonempty, a, b, c, missing) at h)
          | inr (pi, d) ↦
              subst (IsAuth prefix m) (ok-injective (sym (parse_auth-read u p ui pi a b c d) ∙ h))
                (record {
                  secrets_type = refl;
                  user_name = a;
                  password = b;
                  user_name_in = c;
                  password_in = d;
                })
        ]
      ]
    ]
  ]

  -- A secret that is not empty is accepted exactly if it holds the user name and the password of both
  -- directions, under the keys of the section, and then gives these with the type "chap".
  pub parse_auth_iff : (s : Secrets) → (parse_auth prefix m ≡ ok s) ↔ IsAuth prefix m s
  parse_auth_iff s = (
    parse_auth-IsAuth s,
    λ i.
        parse_auth-read s.user_name s.password s.user_name_in s.password_in i.user_name i.password
          i.user_name_in i.password_in
        ∙ cc i.secrets_type,
  )
