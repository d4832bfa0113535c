-- ===== src/Config/GitFetcher.antt =====
-- config/git_fetcher.go, config/extension.go: the values, extensions and remotes of Git's configuration.
-- Warnings on standard error are left out, and with them `uniqKeys`, which only they read.
pub mod Safe
pub mod Values
use expert_octo_doodle.Common.{
  ℕ, ◌+◌, List, [], ◌∷◌, ◌++◌, Option, none, some, Bool, true, false, not, ◌&&◌, ◌||◌,
  if◌then◌else◌, leb, ◌==◌, Bytes, codes, equal, split_once, Map, lookup, insert, remove, parse_int,
  ℤ, pos,
}

-- A file of configuration; `OnlySafeKeys` marks one that the repository itself brings along.
pub record GitConfig : Type 0 where
  pub lines : List Bytes
  pub only_safe_keys : Bool

-- `Priority` is stored only where it is not negative.
pub record Extension : Type 0 where
  pub name : Bytes
  pub clean : Bytes
  pub smudge : Bytes
  pub priority : ℕ

pub record GitFetcher : Type 0 where
  pub vals : Map Bytes

-- What `ReadGitConfig` returns.
pub record Settings : Type 0 where
  pub vals : Map Bytes
  pub extensions : Map Extension
  pub uniq_remotes : Map Bool

-- `strings.ToLower` and `strings.Split` with a separator of one byte, on ASCII texts.
abbrev lower : ℕ → ℕ
lower c = if leb b'A' c && leb c b'Z' then c + 32 else c

unfoldable pub to_lower : Bytes → Bytes
to_lower [] = []
to_lower (c ∷ s) = lower c ∷ to_lower s

abbrev onto_first : ℕ → List Bytes → List Bytes
onto_first c [] = (c ∷ []) ∷ []
onto_first c (part ∷ parts) = (c ∷ part) ∷ parts

unfoldable pub split : ℕ → Bytes → List Bytes
split sep [] = [] ∷ []
split sep (c ∷ s) = let rest = split sep s in if c == sep then [] ∷ rest else onto_first c rest

abbrev pub new_git_config : Bytes → Bool → GitConfig
new_git_config text only_safe = record { lines = split b'\n' text; only_safe_keys = only_safe }

abbrev pub safe_keys : List Bytes
safe_keys =
    codes "lfs.fetchexclude"
    ∷ codes "lfs.fetchinclude"
    ∷ codes "lfs.gitprotocol"
    ∷ codes "lfs.pushurl"
    ∷ codes "lfs.url"
    ∷ []

unfoldable pub unsafe_in : List Bytes → Bytes → Bool
unsafe_in [] key = true
unsafe_in (safe ∷ keys) key =
    let rest = unsafe_in keys key in if equal safe key then false else rest

-- `keyIsUnsafe`
abbrev pub key_is_unsafe : Bytes → Bool
key_is_unsafe = unsafe_in safe_keys

-- `lfs.extension.<name>.<prop>`: the name and the property.
unfoldable pub extension_key : List Bytes → Option (Bytes × Bytes)
extension_key (a ∷ b ∷ name ∷ prop ∷ []) =
    if equal a (codes "lfs") && equal b (codes "extension") then some (name, prop) else none
extension_key _ = none

-- `remote.<name>` with anything behind it: the name.
unfoldable pub remote_key : List Bytes → Option Bytes
remote_key (a ∷ name ∷ more) = if equal a (codes "remote") then some name else none
remote_key _ = none

-- `len(parts) == 3 && parts[2] != "lfsurl"`
unfoldable pub is_hidden_remote : List Bytes → Bool
is_hidden_remote (a ∷ name ∷ prop ∷ []) = not (equal prop (codes "lfsurl"))
is_hidden_remote _ = false

abbrev last_is_access : List Bytes → Bool
last_is_access [] = false
last_is_access (part ∷ []) = equal part (codes "access")
last_is_access (a ∷ part ∷ parts) = last_is_access (part ∷ parts)

-- `len(parts) > 2 && parts[len(parts)-1] == "access"`
unfoldable pub is_access_key : List Bytes → Bool
is_access_key (a ∷ b ∷ c ∷ parts) = last_is_access (c ∷ parts)
is_access_key _ = false

-- `strconv.Atoi` of a priority: what is no number or negative leaves the old one.
abbrev pub priority_or : Option ℤ → ℕ → ℕ
priority_or (some (pos p)) old = p
priority_or _ old = old

-- `extensions[name]` with its name set.
abbrev pub extension_at : Bytes → Map Extension → Extension
extension_at name m = elim (lookup name m) [
  | none ↦ record { name = name; clean = []; smudge = []; priority = 0 }
  | some ext ↦ record ext { name = name }
]

-- The `switch` over the property: the extension, and whether the key is allowed for it; `none` for
-- a line that is passed over.
unfoldable pub set_property : Bool → Bytes → Bytes → Extension → Option (Extension × Bool)
set_property only_safe prop val ext =
    if equal prop (codes "clean")
    then (if only_safe then none else some (record ext { clean = val }, false))
    else if equal prop (codes "smudge")
    then (if only_safe then none else some (record ext { smudge = val }, false))
    else if equal prop (codes "priority")
    then some (record ext { priority = priority_or (parse_int 10 val) ext.priority }, true)
    else some (ext, false)

-- The end of a round: the value is kept unless the key is neither allowed nor safe.
unfoldable pub store : Bool → Bytes → Bytes → Settings → Settings
store allowed key val s =
    if not allowed && key_is_unsafe key then s else record s { vals = insert key val s.vals }

unfoldable pub read_extension : Bool → Bytes → Bytes → Bytes × Bytes → Settings → Settings
unfolding store set_property
read_extension only_safe key val np s =
    elim (set_property only_safe np.1 val (extension_at np.0 s.extensions)) [
      | none ↦ s
      | some r ↦
          store (not only_safe || r.1) key val
            (record s { extensions = insert np.0 r.0 s.extensions })
    ]

unfoldable pub read_remote : Bool → Bytes → Bytes → List Bytes → Bytes → Settings → Settings
unfolding store
read_remote only_safe key val parts remote s =
    if only_safe && is_hidden_remote parts
    then s
    else store true key val
        (record s { uniq_remotes = insert remote (equal remote (codes "origin")) s.uniq_remotes })

-- A line with `=`, its key in lower case and split at the dots.
unfoldable pub read_key : Bool → Bytes → Bytes → List Bytes → Settings → Settings
unfolding read_extension read_remote store
read_key only_safe key val parts s = elim (extension_key parts) [
  | some np ↦ read_extension only_safe key val np s
  | none ↦ elim (remote_key parts) [
    | some remote ↦ read_remote only_safe key val parts remote s
    | none ↦ store (not only_safe || is_access_key parts) key val s
  ]
]

unfoldable pub read_line : Bool → Bytes → Settings → Settings
unfolding read_key
read_line only_safe line s = elim (split_once b'=' line) [
  | none ↦ s
  | some kv ↦ read_key only_safe (to_lower kv.0) kv.1 (split b'.' (to_lower kv.0)) s
]

unfoldable pub read_lines : Bool → List Bytes → Settings → Settings
unfolding read_line
read_lines only_safe [] s = s
read_lines only_safe (line ∷ lines) s = read_lines only_safe lines (read_line only_safe line s)

unfoldable pub read_configs : List GitConfig → Settings → Settings
unfolding read_lines
read_configs [] s = s
read_configs (gc ∷ configs) s = read_configs configs (read_lines gc.only_safe_keys gc.lines s)

abbrev pub no_settings : Settings
no_settings = record { vals = []; extensions = []; uniq_remotes = [] }

-- `ReadGitConfig`
abbrev pub read_git_config : List GitConfig → Settings
read_git_config configs = read_configs configs no_settings

-- `getGitConfigs`, over what the two files and the list of Git's configuration gave, if anything.
abbrev pub get_git_configs : Option GitConfig → Option GitConfig → Option Bytes → List GitConfig
get_git_configs lfsconfig gitconfig global_list =
    elim lfsconfig [ some c ↦ c ∷ [] | none ↦ elim gitconfig [ some c ↦ c ∷ [] | none ↦ [] ] ]
    ++ elim global_list [ some text ↦ new_git_config text false ∷ [] | none ↦ [] ]

unfoldable pub get : Bytes → GitFetcher → Option Bytes
get key g = lookup (to_lower key) g.vals

unfoldable pub set : Bytes → Bytes → GitFetcher → GitFetcher
set key value g = record { vals = insert (to_lower key) value g.vals }

unfoldable pub del : Bytes → GitFetcher → GitFetcher
del key g = record { vals = remove (to_lower key) g.vals }
