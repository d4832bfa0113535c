-- ===== src/Config/GitFetcher/Safe.antt =====
-- What a configuration file that the repository brings along can and cannot set.
use expert_octo_doodle.Common.{
  List, [], ◌∷◌, none, some, Bool, true, false, not, ◌&&◌, ◌||◌, if◌then◌else◌, Bytes, codes, equal,
  equal_iff, split_once, Map, lookup, insert, lookup-insert, ◌≡◌, refl, ◌∙◌, ap, arith,
  Option-cases, Bool-cases, inl, inr,
}
use expert_octo_doodle.Config.GitFetcher.{
  Extension, Settings, to_lower, split, key_is_unsafe, extension_key, remote_key, is_hidden_remote,
  is_access_key, extension_at, set_property, store, read_extension, read_remote, read_key,
  read_line, read_lines,
}

-- The keys that such a file may set: the safe ones, the priority of an extension, the keys of a remote
-- but `remote.<name>.<prop>` with a property other than `lfsurl`, and those that end in `access`.
abbrev pub is_permitted_at : Bytes → List Bytes → Bool
is_permitted_at key parts = not (key_is_unsafe key) || elim (extension_key parts) [
  | some np ↦ equal np.1 (codes "priority")
  | none ↦ elim (remote_key parts) [
    | some remote ↦ not (is_hidden_remote parts)
    | none ↦ is_access_key parts
  ]
]

abbrev pub is_permitted : Bytes → Bool
is_permitted key = is_permitted_at key (split b'.' key)

store-keeps :
    (allowed : Bool) (key val k : Bytes) (s : Settings)
    → (equal key k && (not (key_is_unsafe key) || allowed)) ≡ false
    → lookup k (store allowed key val s).vals ≡ lookup k s.vals
unfolding store
store-keeps allowed key val k s h = ground (arith, lookup-insert key k val s.vals)

read_extension-keeps :
    (key val k : Bytes) (np : Bytes × Bytes) (s : Settings)
    → (equal key k && (not (key_is_unsafe key) || equal np.1 (codes "priority"))) ≡ false
    → lookup k (read_extension true key val np s).vals ≡ lookup k s.vals
unfolding read_extension set_property store
read_extension-keeps key val k np s h = ground (arith, lookup-insert key k val s.vals)

read_remote-keeps :
    (key val k : Bytes) (parts : List Bytes) (remote : Bytes) (s : Settings)
    → (equal key k && (not (key_is_unsafe key) || not (is_hidden_remote parts))) ≡ false
    → lookup k (read_remote true key val parts remote s).vals ≡ lookup k s.vals
unfolding read_remote store
read_remote-keeps key val k parts remote s h = ground (arith, lookup-insert key k val s.vals)

read_key-keeps :
    (key val k : Bytes) (parts : List Bytes) (s : Settings)
    → (equal key k && is_permitted_at key parts) ≡ false
    → lookup k (read_key true key val parts s).vals ≡ lookup k s.vals
unfolding read_key
read_key-keeps key val k parts s h = elim (Option-cases (extension_key parts)) [
  | inr (np, e) ↦ rw (e, read_key) (read_extension-keeps key val k np s (rw e at h))
  | inl e ↦ elim (Option-cases (remote_key parts)) [
    | inr (remote, r) ↦
        rw (e, read_key)
          (rw (r, read_key) (read_remote-keeps key val k parts remote s (rw r at (rw e at h))))
    | inl r ↦
        rw (e, read_key)
          (rw (r, read_key) (store-keeps (is_access_key parts) key val k s (rw r at (rw e at h))))
  ]
]

not_permitted : (key k : Bytes) → is_permitted k ≡ false → (equal key k && is_permitted key) ≡ false
not_permitted key k h = elim (Bool-cases (equal key k)) [
  | inl same ↦ rw same (ap is_permitted ((equal_iff key k).0 same) ∙ h)
  | inr other ↦ rw other
]

read_line-keeps :
    (line k : Bytes) (s : Settings)
    → is_permitted k ≡ false
    → lookup k (read_line true line s).vals ≡ lookup k s.vals
unfolding read_line
read_line-keeps line k s h = elim (Option-cases (split_once b'=' line)) [
  | inl e ↦ rw (e, read_line)
  | inr (kv, e) ↦
      rw (e, read_line)
        (read_key-keeps (to_lower kv.0) kv.1 k (split b'.' (to_lower kv.0)) s
          (not_permitted (to_lower kv.0) k h))
]

-- Reading a file of which only safe keys count leaves the value of every key as it was that is not
-- one of the safe keys, the priority of an extension, a key of a remote other than
-- `remote.<name>.<prop>` with a property other than `lfsurl`, or a key of three parts or more that ends
-- in `access`.
pub read_lines-keeps :
    (lines : List Bytes) (k : Bytes) (s : Settings)
    → is_permitted k ≡ false
    → lookup k (read_lines true lines s).vals ≡ lookup k s.vals
unfolding read_lines
read_lines-keeps [] k s h = refl
read_lines-keeps (line ∷ lines) k s h =
    read_lines-keeps lines k (read_line true line s) h ∙ read_line-keeps line k s h

-- The commands of an extension, empty where there is none.
abbrev pub commands_of : Extension → Bytes × Bytes
commands_of x = (x.clean, x.smudge)

abbrev pub commands : Bytes → Map Extension → Bytes × Bytes
commands name m = commands_of (extension_at name m)

commands-insert :
    (n name : Bytes) (x : Extension) (m : Map Extension)
    → commands n (insert name x m) ≡ (if equal name n then commands_of x else commands n m)
commands-insert n name x m = ground (arith, lookup-insert name n x m)

store-extensions :
    (allowed : Bool) (key val : Bytes) (s : Settings)
    → (store allowed key val s).extensions ≡ s.extensions
unfolding store
store-extensions allowed key val s = ground arith

set_property-commands :
    (prop val : Bytes) (x : Extension) (r : Extension × Bool)
    → set_property true prop val x ≡ some r
    → commands_of r.0 ≡ commands_of x
unfolding set_property
set_property-commands prop val x r h = ground arith

read_extension-commands :
    (key val n : Bytes) (np : Bytes × Bytes) (s : Settings)
    → commands n (read_extension true key val np s).extensions ≡ commands n s.extensions
unfolding read_extension
read_extension-commands key val n np s =
    elim (Option-cases (set_property true np.1 val (extension_at np.0 s.extensions))) [
      | inl passed ↦ rw (passed, read_extension)
      | inr (r, kept) ↦
          let same = set_property-commands np.1 val (extension_at np.0 s.extensions) r kept in
          rw (kept, read_extension)
            (ap (commands n) (store-extensions r.1 key val _)
              ∙ commands-insert n np.0 r.0 s.extensions
              ∙ elim (Bool-cases (equal np.0 n)) [
                | inl e ↦ rw e (same ∙ ap (λ x. commands x s.extensions) ((equal_iff np.0 n).0 e))
                | inr e ↦ rw e
              ])
    ]

read_key-commands :
    (key val n : Bytes) (parts : List Bytes) (s : Settings)
    → commands n (read_key true key val parts s).extensions ≡ commands n s.extensions
unfolding read_key read_remote store
read_key-commands key val n parts s = elim (Option-cases (extension_key parts)) [
  | inr (np, e) ↦ rw (e, read_key) (read_extension-commands key val n np s)
  | inl e ↦ elim (Option-cases (remote_key parts)) [
    | inr (remote, r) ↦ rw (e, read_key) (rw (r, read_key) (ground arith))
    | inl r ↦ rw (e, read_key) (rw (r, read_key) (ground arith))
  ]
]

-- Reading a file of which only safe keys count leaves the clean and smudge commands of every extension
-- as they were.
pub read_lines-commands :
    (lines : List Bytes) (n : Bytes) (s : Settings)
    → commands n (read_lines true lines s).extensions ≡ commands n s.extensions
unfolding read_lines read_line
read_lines-commands [] n s = refl
read_lines-commands (line ∷ lines) n s =
    read_lines-commands lines n (read_line true line s)
    ∙ elim (Option-cases (split_once b'=' line)) [
      | inl e ↦ rw (e, read_line)
      | inr (kv, e) ↦
          rw (e, read_line)
            (read_key-commands (to_lower kv.0) kv.1 n (split b'.' (to_lower kv.0)) s)
    ]
