-- ===== src/Tests/Installs.antt =====
-- Hooks on a disk with one file, and filters in a configuration with three scopes.
use expert_octo_doodle.Common.{
  [], ◌++◌, Option, none, some, Bool, true, false, ◌&&◌, if◌then◌else◌, Bytes, codes, equal,
  equal_refl, equal_iff, lookup, trim_space, ◌≡◌, ◌≢◌, refl, sym, ap, ◌∙◌, if_false, arith,
}
use expert_octo_doodle.Lfs.Hook.{
  Disk, HookError, Content, content, already_exists, path_in, shown, matches, install, uninstall,
}
use expert_octo_doodle.Lfs.Hook.Kept.{IsHook, Reads, hook-kept, uninstall-install}
use expert_octo_doodle.Lfs.Attribute
use expert_octo_doodle.Lfs.Attribute.{
  Scope, local, system, global, AttributeError, GitConfigTool, InstallOptions, same_scope,
}
use expert_octo_doodle.Lfs.Attribute.Installed.{HasValues, install-HasValues, install-kept}
use expert_octo_doodle.Lfs.Setup.{pre_push_hook, filters}

-- Files by their paths; what is not there is read as an empty file.
abbrev Files : Type 0
Files = Bytes → Option Bytes

abbrev shown_file : Option Bytes → Content
shown_file none = content []
shown_file (some text) = content text

abbrev is_there : Option Bytes → Bool
is_there none = false
is_there (some text) = true

put : Bytes → Option Bytes → Files → Files
put path text files other = if equal path other then text else files other

put_same : (path : Bytes) (text : Option Bytes) (files : Files) → put path text files path ≡ text
unfolding put
put_same path text files = rw (equal_refl path)

read-put :
    (path text : Bytes) (s t : Files)
    → ◌≡◌ {A = Option HookError × Files} (none, put path (some text) s) (none, t)
    → shown_file (t path) ≡ content text
read-put path text s t h =
    ap (λ (r : Option HookError × Files). shown_file (r.1 path)) (sym h)
    ∙ ap shown_file (put_same path (some text) s)

gone-put :
    (path : Bytes) (s t : Files)
    → ◌≡◌ {A = Option HookError × Files} (none, put path none s) (none, t)
    → is_there (t path) ≡ false
gone-put path s t h =
    ap (λ (r : Option HookError × Files). is_there (r.1 path)) (sym h)
    ∙ ap is_there (put_same path none s)

abbrev files_disk : Disk
files_disk = record {
  State = Files;
  mkdir_all = λ folder s. (none, s);
  exists = λ path s. is_there (s path);
  read = λ path s. shown_file (s path);
  write_file = λ path text s. (none, put path (some text) s);
  remove_all = λ path s. (none, put path none s);
  read-write_file = read-put;
  exists-remove_all = gone-put;
  exists-mkdir_all = λ folder name s. refl;
  read-mkdir_all = λ folder name s. refl;
}

abbrev hooks_dir : Bytes
hooks_dir = codes "hooks"

-- A hook of the user.
abbrev user_files : Files
user_files path = some (codes "#!/bin/sh\nmake test\n")

user-foreign : matches pre_push_hook (shown (codes "#!/bin/sh\nmake test\n")) ≡ false
unfolding matches shown
user-foreign = refl

hook-kept_example :
    ((install files_disk hooks_dir false pre_push_hook user_files).0 ≢ none)
    × Reads files_disk hooks_dir pre_push_hook
        (codes "#!/bin/sh\nmake test\n")
        (install files_disk hooks_dir false pre_push_hook user_files).1
    × (uninstall files_disk hooks_dir true pre_push_hook user_files ≡ (
      some (already_exists (codes "pre-push") (shown (codes "#!/bin/sh\nmake test\n"))),
      user_files,
    ))
hook-kept_example =
    hook-kept files_disk hooks_dir pre_push_hook (codes "#!/bin/sh\nmake test\n") user_files refl
      refl user-foreign

pre_push_hook-IsHook : IsHook pre_push_hook
unfolding trim_space
pre_push_hook-IsHook = record { trimmed = refl; fits = omega arith }

abbrev no_files : Files
no_files path = none

abbrev hook_files : Files
hook_files =
    put (path_in hooks_dir pre_push_hook) (some (pre_push_hook.contents ++ codes "\n")) no_files

hook_installed : install files_disk hooks_dir false pre_push_hook no_files ≡ (none, hook_files)
unfolding install
hook_installed = refl

uninstall-install_example :
    (uninstall files_disk hooks_dir true pre_push_hook hook_files
      ≡ (none, put (path_in hooks_dir pre_push_hook) none hook_files))
    × (uninstall files_disk hooks_dir true pre_push_hook hook_files
          ≡ (none, put (path_in hooks_dir pre_push_hook) none hook_files)
        → is_there (
            put (path_in hooks_dir pre_push_hook) none hook_files (path_in hooks_dir pre_push_hook))
          ≡ false)
uninstall-install_example =
    uninstall-install files_disk hooks_dir pre_push_hook false no_files hook_files
      (put (path_in hooks_dir pre_push_hook) none hook_files) pre_push_hook-IsHook hook_installed

-- The values of each scope by their keys.
abbrev Values : Type 0
Values = Scope → Bytes → Bytes

assign : Scope → Bytes → Bytes → Values → Values
assign sc key value s d other = if same_scope sc d && equal key other then value else s d other

assign_same : (sc : Scope) (key value : Bytes) (s : Values) → assign sc key value s sc key ≡ value
unfolding assign
assign_same local key value s = rw (equal_refl key)
assign_same system key value s = rw (equal_refl key)
assign_same global key value s = rw (equal_refl key)

assign_other :
    (sc d : Scope) (key other value : Bytes) (s : Values)
    → (same_scope sc d && equal key other) ≡ false
    → assign sc key value s d other ≡ s d other
unfolding assign
assign_other sc d key other value s ne = if_false _ value (s d other) ne

assign_done :
    (sc : Scope) (key value : Bytes) (s t : Values)
    → trim_space value ≡ value
    → ◌≡◌ {A = Option AttributeError × Values} (none, assign sc key value s) (none, t)
    → t sc key ≡ value
assign_done sc key value s t trimmed h =
    ap (λ (r : Option AttributeError × Values). r.1 sc key) (sym h) ∙ assign_same sc key value s

abbrev values_tool : GitConfigTool
values_tool = record {
  State = Values;
  same_key = equal;
  find = λ sc key s. s sc key;
  unset_key = λ sc key s. assign sc key [] s;
  set_key = λ sc key value s. (none, assign sc key value s);
  remove_section = λ sc key s. s;
  find-same_key = λ sc key other s h. ap (s sc) ((equal_iff key other).0 h);
  find-set_key = assign_done;
  find-set_other = assign_other;
  find-unset_other = λ sc d key other s. assign_other sc d key other [] s;
}

abbrev gentle : InstallOptions
gentle = record { force = false; in_local = false; in_system = false }

abbrev unset_values : Values
unset_values d key = []

install_succeeds : (Attribute.install values_tool filters gentle unset_values).0 ≡ none
unfolding Attribute.install assign
install_succeeds = refl

install-HasValues_example :
    HasValues values_tool filters gentle filters.properties
      (Attribute.install values_tool filters gentle unset_values).1
unfolding equal trim_space
install-HasValues_example =
    install-HasValues values_tool filters gentle unset_values
      (((refl, (refl, (refl, tt))), ((refl, (refl, tt)), ((refl, tt), (tt, tt)))))
      (refl, (refl, (refl, (refl, tt)))) install_succeeds

-- The clean filter of the user.
abbrev user_values : Values
user_values d key = codes "my-clean"

install-kept_example :
    (Attribute.install values_tool filters gentle user_values).1 global (codes "filter.lfs.clean")
    ≡ codes "my-clean"
unfolding Attribute.should_reset equal lookup
install-kept_example =
    install-kept values_tool filters gentle global (codes "filter.lfs.clean") user_values refl
      (λ h. refl, (λ h. refl, (λ h. refl, (λ h. refl, tt))))
