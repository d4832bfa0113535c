-- ===== src/Config/GitFetcher/Values.antt =====
-- The values that Git's own configuration gives: for each key the last one in the files.
use expert_octo_doodle.Common.{
  List, [], ◌∷◌, Option, none, some, true, false, if◌then◌else◌, Bytes, equal, split_once, lookup,
  lookup-insert, ◌≡◌, refl, ◌∙◌, ap, arith, Option-cases, inl, inr,
}
use expert_octo_doodle.Config.GitFetcher.{
  Settings, to_lower, split, extension_key, remote_key, set_property, store, read_extension,
  read_remote, read_key, read_line, read_lines, read_configs, read_git_config, get,
}

-- The value of the last line `key=value` whose key is `k` in lower case, if there is one.
abbrev pub value_in : Bytes → Bytes → Option Bytes → Option Bytes
value_in k line v = elim (split_once b'=' line) [
  | none ↦ v
  | some kv ↦ if equal (to_lower kv.0) k then some kv.1 else v
]

abbrev pub last_value : Bytes → List Bytes → Option Bytes → Option Bytes
last_value k [] v = v
last_value k (line ∷ lines) v = last_value k lines (value_in k line v)

read_extension-value :
    (key val k : Bytes) (np : Bytes × Bytes) (s : Settings)
    → lookup k (read_extension false key val np s).vals
      ≡ (if equal key k then some val else lookup k s.vals)
unfolding read_extension set_property store
read_extension-value key val k np s = ground (arith, lookup-insert key k val s.vals)

read_remote-value :
    (key val k : Bytes) (parts : List Bytes) (remote : Bytes) (s : Settings)
    → lookup k (read_remote false key val parts remote s).vals
      ≡ (if equal key k then some val else lookup k s.vals)
unfolding read_remote store
read_remote-value key val k parts remote s = ground (arith, lookup-insert key k val s.vals)

read_key-value :
    (key val k : Bytes) (parts : List Bytes) (s : Settings)
    → lookup k (read_key false key val parts s).vals
      ≡ (if equal key k then some val else lookup k s.vals)
unfolding read_key store
read_key-value key val k parts s = elim (Option-cases (extension_key parts)) [
  | inr (np, e) ↦ rw (e, read_key) (read_extension-value key val k np s)
  | inl e ↦ elim (Option-cases (remote_key parts)) [
    | inr (remote, r) ↦
        rw (e, read_key) (rw (r, read_key) (read_remote-value key val k parts remote s))
    | inl r ↦ rw (e, read_key) (rw (r, read_key) (lookup-insert key k val s.vals))
  ]
]

read_line-value :
    (line k : Bytes) (s : Settings)
    → lookup k (read_line false line s).vals ≡ value_in k line (lookup k s.vals)
unfolding read_line
read_line-value line k s = elim (Option-cases (split_once b'=' line)) [
  | inl e ↦ rw (e, read_line, value_in)
  | inr (kv, e) ↦
      rw (e, read_line, value_in)
        (read_key-value (to_lower kv.0) kv.1 k (split b'.' (to_lower kv.0)) s)
]

-- A file of which every key counts gives each key the value of its last line, and leaves the keys
-- without a line as they were.
pub read_lines-value :
    (lines : List Bytes) (k : Bytes) (s : Settings)
    → lookup k (read_lines false lines s).vals ≡ last_value k lines (lookup k s.vals)
unfolding read_lines
read_lines-value [] k s = refl
read_lines-value (line ∷ lines) k s =
    read_lines-value lines k (read_line false line s)
    ∙ ap (last_value k lines) (read_line-value line k s)

-- `Get` on what `ReadGitConfig` makes of a file of which only safe keys count and of Git's own
-- configuration behind it: the last line of the latter with the key, whatever its case, decides over
-- what the former gives.
pub get-read_git_config :
    (file lines : List Bytes) (key : Bytes)
    → get key (record {
      vals =
          (read_git_config (
            record { lines = file; only_safe_keys = true }
            ∷ record { lines = lines; only_safe_keys = false }
            ∷ [])).vals;
    })
      ≡ last_value (to_lower key) lines (
          lookup
            (to_lower key)
            (read_git_config (record { lines = file; only_safe_keys = true } ∷ [])).vals)
unfolding get read_configs
get-read_git_config file lines key = read_lines-value lines (to_lower key) _
