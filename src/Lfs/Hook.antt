-- ===== src/Lfs/Hook.antt =====
-- lfs/hook.go: the hooks of Git that git-lfs installs. The file system is a parameter.
pub mod Kept
use expert_octo_doodle.Common.{
  ℕ, ◌+◌, List, [], ◌∷◌, ◌++◌, Option, none, some, Bool, true, false, not, ◌&&◌, ◌||◌,
  if◌then◌else◌, Bytes, codes, equal, trim_space, is_in, take, length, ◌≡◌,
}

pub data HookError : Type 0 where
  io : Bytes → HookError
  already_exists : Bytes → Bytes → HookError
  not_in_repository : HookError

pub data Content : Type 0 where
  content : Bytes → Content
  unreadable : HookError → Content

-- The operations of the file system, with the error that each may give; a file that is written as a whole is read back,
-- what is removed is gone, and the creation of a directory leaves what is in it alone.
pub record Disk : Type 1 where
  pub State : Type 0
  pub mkdir_all : Bytes → State → Option HookError × State
  pub exists : Bytes → State → Bool
  pub read : Bytes → State → Content
  pub write_file : Bytes → Bytes → State → Option HookError × State
  pub remove_all : Bytes → State → Option HookError × State
  pub read-write_file :
      (path text : Bytes) (s t : State)
      → write_file path text s ≡ (none, t)
      → read path t ≡ content text
  pub exists-remove_all :
      (path : Bytes) (s t : State) → remove_all path s ≡ (none, t) → exists path t ≡ false
  pub exists-mkdir_all :
      (folder name : Bytes) (s : State)
      → exists (folder ++ (b'/' ∷ name)) (mkdir_all folder s).1 ≡ exists (folder ++ (b'/' ∷ name)) s
  pub read-mkdir_all :
      (folder name : Bytes) (s : State)
      → read (folder ++ (b'/' ∷ name)) (mkdir_all folder s).1 ≡ read (folder ++ (b'/' ∷ name)) s

pub record Hook : Type 0 where
  pub type : Bytes
  pub contents : Bytes
  pub upgradeables : List Bytes

-- `Dir`, from `core.hooksPath` if it is set and Git is at least 2.9.0.
unfoldable pub dir : Option Bytes → Bool → Bytes → Bytes
dir none supported git_dir = git_dir ++ codes "/hooks"
dir (some hooks_path) supported git_dir =
    if supported then hooks_path else git_dir ++ codes "/hooks"

-- `filepath.Join` of a clean directory and the type.
abbrev pub path_in : Bytes → Hook → Bytes
path_in folder h = folder ++ (b'/' ∷ h.type)

-- The limit of the reader.
abbrev pub read_limit : ℕ
read_limit = 1024

-- What `matchesCurrent` takes for the text of a hook.
unfoldable pub shown : Bytes → Bytes
unfolding trim_space
shown text = trim_space (take read_limit text)

unfoldable pub matches : Hook → Bytes → Bool
unfolding equal
matches h text = equal text h.contents || (equal text [] || is_in h.upgradeables text)

module _ (disk : Disk) (folder : Bytes) where
  open disk use {State, mkdir_all, exists, read, write_file, remove_all}

  unfoldable pub write : Hook → State → Option HookError × State
  write h s = write_file (path_in folder h) (h.contents ++ codes "\n") s

  -- `matchesCurrent`; `none` where the hook matches, which is the only result without an error.
  unfoldable pub matches_current : Hook → State → Option HookError
  unfolding matches shown
  matches_current h s = elim (read (path_in folder h) s) [
    | unreadable e ↦ some e
    | content text ↦
        if matches h (shown text) then none else some (already_exists h.type (shown text))
  ]

  unfoldable pub upgrade : Hook → State → Option HookError × State
  unfolding matches_current write
  upgrade h s = elim (matches_current h s) [ some e ↦ (some e, s) | none ↦ write h s ]

  -- The end of `Install`, in a directory that is there.
  abbrev pub install_in : Bool → Hook → State → Option HookError × State
  install_in force h s = if exists (path_in folder h) s && not force then upgrade h s else write h s

  unfoldable pub install : Bool → Hook → State → Option HookError × State
  unfolding upgrade write
  install force h s =
      let made = mkdir_all folder s in
      elim made.0 [ some e ↦ (some e, made.1) | none ↦ install_in force h made.1 ]

  -- `InRepo` is an argument.
  unfoldable pub uninstall : Bool → Hook → State → Option HookError × State
  unfolding matches_current
  uninstall in_repo h s =
      if not in_repo then (some not_in_repository, s) else elim (matches_current h s) [
        | some e ↦ (some e, s)
        | none ↦ remove_all (path_in folder h) s
      ]

  -- `InstallHooks` and `UninstallHooks`: the first error ends the loop.
  unfoldable pub install_hooks : Bool → List Hook → State → Option HookError × State
  unfolding install
  install_hooks force [] s = (none, s)
  install_hooks force (h ∷ hooks) s =
      let done = install force h s in
      elim done.0 [ some e ↦ (some e, done.1) | none ↦ install_hooks force hooks done.1 ]

  unfoldable pub uninstall_hooks : Bool → List Hook → State → Option HookError × State
  unfolding uninstall
  uninstall_hooks in_repo [] s = (none, s)
  uninstall_hooks in_repo (h ∷ hooks) s =
      let done = uninstall in_repo h s in
      elim done.0 [ some e ↦ (some e, done.1) | none ↦ uninstall_hooks in_repo hooks done.1 ]
