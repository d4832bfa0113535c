-- ===== src/Lfs/Setup.antt =====
-- lfs/setup.go: the hook and the filters that git-lfs installs.
use expert_octo_doodle.Common.{List, [], ◌∷◌, Option, Bool, if◌then◌else◌, Bytes, codes}
use expert_octo_doodle.Lfs.Hook.{Hook, Disk, HookError, install_hooks, uninstall_hooks}
use expert_octo_doodle.Lfs.Attribute.{
  Attribute, AttributeError, GitConfigTool, InstallOptions, install, uninstall,
}

abbrev pub pre_push_hook : Hook
pre_push_hook = record {
  type = codes "pre-push";
  contents =
      codes
        "#!/bin/sh\ncommand -v git-lfs >/dev/null 2>&1 || { echo >&2 \"\\nThis repository is configured for Git LFS but 'git-lfs' was not found on your path. If you no longer wish to use Git LFS, remove this hook by deleting .git/hooks/pre-push.\\n\"; exit 2; }\ngit lfs pre-push \"$@\"";
  upgradeables =
      codes "#!/bin/sh\ngit lfs push --stdin $*"
      ∷ codes "#!/bin/sh\ngit lfs push --stdin \"$@\""
      ∷ codes "#!/bin/sh\ngit lfs pre-push \"$@\""
      ∷ codes
          "#!/bin/sh\ncommand -v git-lfs >/dev/null 2>&1 || { echo >&2 \"\\nThis repository has been set up with Git LFS but Git LFS is not installed.\\n\"; exit 0; }\ngit lfs pre-push \"$@\""
      ∷ codes
          "#!/bin/sh\ncommand -v git-lfs >/dev/null 2>&1 || { echo >&2 \"\\nThis repository has been set up with Git LFS but Git LFS is not installed.\\n\"; exit 2; }\ngit lfs pre-push \"$@\""
      ∷ [];
}

abbrev pub hooks : List Hook
hooks = pre_push_hook ∷ []

abbrev pub filters : Attribute
filters = record {
  section = codes "filter.lfs";
  properties =
      (codes "clean", codes "git-lfs clean -- %f")
      ∷ (codes "smudge", codes "git-lfs smudge -- %f")
      ∷ (codes "process", codes "git-lfs filter-process")
      ∷ (codes "required", codes "true")
      ∷ [];
  upgradeables =
      (codes "clean", codes "git-lfs clean %f" ∷ [])
      ∷ (codes "smudge", codes "git-lfs smudge %f" ∷ [])
      ∷ (codes "process", codes "git-lfs filter" ∷ [])
      ∷ [];
}

abbrev pub pass_filters : Attribute
pass_filters = record {
  section = codes "filter.lfs";
  properties =
      (codes "clean", codes "git-lfs clean -- %f")
      ∷ (codes "smudge", codes "git-lfs smudge --skip -- %f")
      ∷ (codes "process", codes "git-lfs filter-process --skip")
      ∷ (codes "required", codes "true")
      ∷ [];
  upgradeables =
      (codes "clean", codes "git-lfs clean %f" ∷ [])
      ∷ (codes "smudge", codes "git-lfs smudge --skip %f" ∷ [])
      ∷ (codes "process", codes "git-lfs filter --skip" ∷ [])
      ∷ [];
}

-- `InstallHooks` and `UninstallHooks`
abbrev pub install_all_hooks :
    (disk : Disk) → Bytes → Bool → disk.State → Option HookError × disk.State
install_all_hooks disk folder force = install_hooks disk folder force hooks

abbrev pub uninstall_all_hooks :
    (disk : Disk) → Bytes → Bool → disk.State → Option HookError × disk.State
uninstall_all_hooks disk folder in_repo = uninstall_hooks disk folder in_repo hooks

abbrev pub filters_for : Bool → Attribute
filters_for pass_through = if pass_through then pass_filters else filters

-- `InstallFilters` and `UninstallFilters`
abbrev pub install_filters :
    (tool : GitConfigTool) → InstallOptions → Bool → tool.State → Option AttributeError × tool.State
install_filters tool opt pass_through = install tool (filters_for pass_through) opt

abbrev pub uninstall_filters : (tool : GitConfigTool) → InstallOptions → tool.State → tool.State
uninstall_filters tool opt = uninstall tool filters opt
