-- ===== src/Lfs/Attribute.antt =====
-- lfs/attribute.go: groups of values of Git's configuration that git-lfs installs. `git config` is a
-- parameter.
pub mod Installed
use expert_octo_doodle.Common.{
  List, [], ◌∷◌, ◌++◌, Option, none, some, Bool, true, false, ◌&&◌, ◌||◌, if◌then◌else◌, Bytes,
  codes, equal, is_in, Map, lookup, trim_space, ◌≡◌,
}

pub data Scope : Type 0 where
  local : Scope
  system : Scope
  global : Scope

abbrev pub same_scope : Scope → Scope → Bool
same_scope local local = true
same_scope system system = true
same_scope global global = true
same_scope _ _ = false

pub data AttributeError : Type 0 where
  git_failed : Bytes → AttributeError
  differs : Bytes → Bytes → Bytes → AttributeError

-- `find` is `git config` with its output trimmed, and empty where there is no value; `same_key` tells whether Git takes two keys
-- for one, as it does without regard to the case of some letters. A value that is set is found, and a call for one key leaves the other keys and scopes alone, also where it fails.
pub record GitConfigTool : Type 1 where
  pub State : Type 0
  pub same_key : Bytes → Bytes → Bool
  pub find : Scope → Bytes → State → Bytes
  pub unset_key : Scope → Bytes → State → State
  pub set_key : Scope → Bytes → Bytes → State → Option AttributeError × State
  pub remove_section : Scope → Bytes → State → State
  pub find-same_key :
      (sc : Scope) (key other : Bytes) (s : State)
      → same_key key other ≡ true
      → find sc key s ≡ find sc other s
  pub find-set_key :
      (sc : Scope) (key value : Bytes) (s t : State)
      → trim_space value ≡ value
      → set_key sc key value s ≡ (none, t)
      → find sc key t ≡ value
  pub find-set_other :
      (sc d : Scope) (key other value : Bytes) (s : State)
      → (same_scope sc d && same_key key other) ≡ false
      → find d other (set_key sc key value s).1 ≡ find d other s
  pub find-unset_other :
      (sc d : Scope) (key other : Bytes) (s : State)
      → (same_scope sc d && same_key key other) ≡ false
      → find d other (unset_key sc key s) ≡ find d other s

pub record Attribute : Type 0 where
  pub section : Bytes
  pub properties : Map Bytes
  pub upgradeables : Map (List Bytes)

pub record InstallOptions : Type 0 where
  pub force : Bool
  pub in_local : Bool
  pub in_system : Bool

-- The order of the tests of the options.
abbrev pub scope_of : InstallOptions → Scope
scope_of opt = if opt.in_local then local else if opt.in_system then system else global

-- `strings.Join([]string{a.Section, relative}, ".")`
abbrev pub normalize_key : Attribute → Bytes → Bytes
normalize_key a relative = a.section ++ (b'.' ∷ relative)

unfoldable pub should_reset : Bytes → List Bytes → Bool
unfolding equal
should_reset [] upgradeables = true
should_reset (c ∷ value) upgradeables = is_in upgradeables (c ∷ value)

abbrev or_empty : Option (List Bytes) → List Bytes
or_empty none = []
or_empty (some l) = l

abbrev pub upgradeables_of : Attribute → Bytes → List Bytes
upgradeables_of a k = or_empty (lookup k a.upgradeables)

module _ (tool : GitConfigTool) (a : Attribute) (opt : InstallOptions) where
  open tool use {State, find, unset_key, set_key, remove_section}

  -- `set`
  unfoldable pub set : Bytes → Bytes → List Bytes → State → Option AttributeError × State
  unfolding should_reset equal
  set key value upgradeables s =
      let sc = scope_of opt in
      if opt.force || should_reset (find sc key s) upgradeables
      then set_key sc key value (unset_key sc key s)
      else if equal (find sc key s) value
      then (none, s)
      else (some (differs key value (find sc key s)), s)

  -- The loop of `Install` over the properties, in the order in which they come.
  unfoldable pub install_all : List (Bytes × Bytes) → State → Option AttributeError × State
  unfolding set
  install_all [] s = (none, s)
  install_all ((k, v) ∷ properties) s =
      let done = set (normalize_key a k) v (upgradeables_of a k) s in
      elim done.0 [ some e ↦ (some e, done.1) | none ↦ install_all properties done.1 ]

  unfoldable pub install : State → Option AttributeError × State
  unfolding install_all
  install s = install_all a.properties s

  unfoldable pub uninstall : State → State
  uninstall s = remove_section global a.section (remove_section system a.section s)
