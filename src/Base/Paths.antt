-- ===== src/Base/Paths.antt =====
-- What the driver uses of Go's `path` package: `Clean`, `Join` and `Dir`, on slash-separated paths.
use Prim.Native.Char.{Char, code}
use Prim.Native.String.{String, ◌++◌ as ◌<>◌}
use mathlib.Core.Bool.{Bool, false, ◌||◌}
use mathlib.Core.List.{List, [], ◌∷◌}
use mathlib.Core.Path.{◌≡◌, refl}
use text.Mathlib.Text.{◌==◌ as str_eq}
use truenas_scale_csi.Base.Tests.{nat_eq, if◌then◌else◌}
use truenas_scale_csi.Base.Text.{join}

abbrev is_slash : Char → Bool
is_slash c = nat_eq (code c) 47

abbrev push_front : Char → List String → List String
push_front c [] = String.◌∷◌ c "" ∷ []
push_front c (x ∷ xs) = String.◌∷◌ c x ∷ xs

-- The texts between the slashes; there is always one.
split : String → List String
split String.[] = "" ∷ []
split (String.◌∷◌ c s) = let rest = split s in if is_slash c then "" ∷ rest else push_front c rest

is_rooted : String → Bool
is_rooted String.[] = false
is_rooted (String.◌∷◌ c s) = is_slash c

reverse_onto : List String → List String → List String
reverse_onto [] ys = ys
reverse_onto (x ∷ xs) ys = reverse_onto xs (x ∷ ys)

-- One level up, of the elements that are kept so far, the last one first.
up : Bool → List String → List String
up rooted [] = if rooted then [] else ".." ∷ []
up rooted (x ∷ kept) = if str_eq x ".." then ".." ∷ x ∷ kept else kept

-- The elements that are left, the last one first: empty ones and "." go, and ".." takes the one before.
resolve : Bool → List String → List String → List String
resolve rooted kept [] = kept
resolve rooted kept (x ∷ xs) =
    let next =
      if str_eq x "" || str_eq x "."
      then kept
      else if str_eq x ".."
      then up rooted kept
      else x ∷ kept in
    resolve rooted next xs

-- `path.Clean(p)`
unfoldable pub clean_path : String → String
unfolding split is_rooted reverse_onto up resolve
clean_path p =
    let rooted = is_rooted p in
    let body = join "/" (reverse_onto (resolve rooted [] (split p)) []) in
    if rooted then "/" <> body else if str_eq body "" then "." else body

-- `path.Join(a, b)`
unfoldable pub join_path : String → String → String
join_path a b =
    if str_eq a ""
    then (if str_eq b "" then "" else clean_path b)
    else (if str_eq b "" then clean_path a else clean_path (a <> "/" <> b))

without_last : List String → List String
without_last [] = []
without_last (x ∷ []) = "" ∷ []
without_last (x ∷ y ∷ xs) = x ∷ without_last (y ∷ xs)

-- `path.Dir(p)`: what stands before the last slash, the slash included, cleaned.
unfoldable pub dir_path : String → String
unfolding split without_last
dir_path p = clean_path (join "/" (without_last (split p)))

clean_path_test :
    (clean_path "/a//b/./c/../d/" ≡ "/a/b/d")
    × (clean_path "../a/../../b" ≡ "../../b")
    × (clean_path "" ≡ ".")
    × (clean_path "/.." ≡ "/")
unfolding clean_path join
clean_path_test = (refl, refl, refl, refl)

join_path_test :
    join_path "/csi/iscsi_config" "iscsi-pvc-1.json" ≡ "/csi/iscsi_config/iscsi-pvc-1.json"
unfolding join_path clean_path join
join_path_test = refl

dir_path_test :
    (dir_path "/csi/csi.sock" ≡ "/csi") × (dir_path "csi.sock" ≡ ".") × (dir_path "/csi.sock" ≡ "/")
unfolding dir_path clean_path join
dir_path_test = (refl, refl, refl)
