-- ===== src/Git/Remotes.antt =====
-- git/git.go: the remotes that `git remote` lists, and what the code takes for one.
use expert_octo_doodle.Common.{
  List, [], ◌∷◌, Option, none, some, ◌||◌, if◌then◌else◌, Bytes, codes, equal, contains, scan_lines,
  trim_space, is_in, map,
}
use expert_octo_doodle.Common.Urls.{UrlParser}

pub data RemoteError : Type 0 where
  not_listed : RemoteError
  invalid_remote_name : Bytes → RemoteError
  invalid_protocol : Bytes → Bytes → RemoteError
  invalid_url : RemoteError
  no_remotes : RemoteError
  ambiguous : RemoteError

pub data Remote : Type 0 where
  named : Bytes → Remote
  failed : RemoteError → Remote

-- `RemoteList`, over what git prints; `none` where git cannot be started.
unfoldable pub remote_list : Option Bytes → Option (List Bytes)
unfolding scan_lines trim_space
remote_list none = none
remote_list (some stdout) = some (map trim_space (scan_lines stdout))

-- `DefaultRemote`, over what the current branch tracks and the list.
unfoldable pub default_remote : Option Bytes → Option (List Bytes) → Remote
unfolding equal
default_remote (some tracked) remotes = named tracked
default_remote none none = failed not_listed
default_remote none (some []) = failed no_remotes
default_remote none (some (r ∷ [])) = named r
default_remote none (some (r ∷ s ∷ remotes)) =
    if is_in (r ∷ s ∷ remotes) (codes "origin") then named (codes "origin") else failed ambiguous

module _ (parser : UrlParser) where
  open parser use {parse, scheme}

  -- `ValidateRemoteURL`; `none` is its success.
  unfoldable pub validate_remote_url : Bytes → Option RemoteError
  unfolding contains equal
  validate_remote_url remote = elim (parse remote) [
    | none ↦ some invalid_url
    | some u ↦
        if equal (scheme u) (codes "ssh")
          || (equal (scheme u) (codes "http")
              || (equal (scheme u) (codes "https") || equal (scheme u) (codes "git")))
        then none
        else if equal (scheme u) []
        then (if contains remote (codes ":") then none else some (invalid_remote_name remote))
        else some (invalid_protocol (scheme u) remote)
  ]

  -- `ValidateRemote`
  unfoldable pub validate_remote : Option (List Bytes) → Bytes → Option RemoteError
  unfolding validate_remote_url equal
  validate_remote none remote = some not_listed
  validate_remote (some remotes) remote =
      if is_in remotes remote then none else elim (validate_remote_url remote) [
        | none ↦ none
        | some e ↦ some (invalid_remote_name remote)
      ]
