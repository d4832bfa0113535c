-- ===== src/Config/Configuration.antt =====
-- config/config.go: the choice of the endpoint, the access to it, and the numbers of transfers. The state of a
-- `Configuration` that this reads or writes is `Configuration`; what runs git or parses a url is a
-- parameter.
pub mod Access
pub mod Endpoints
use expert_octo_doodle.Common.{
  ℕ, List, [], ◌∷◌, ◌++◌, Option, none, some, Bool, true, false, not, ◌&&◌, ◌||◌, if◌then◌else◌,
  Bytes, codes, equal, Map, ℤ, pos, negsuc, parse_int, ◌==◌, zero, suc,
}
use expert_octo_doodle.Common.Urls.{UrlParser}
use expert_octo_doodle.Config.GitFetcher.{GitFetcher, get, set, del, to_lower}
use expert_octo_doodle.Config.Environment.{Fetcher, bool, int, text_or}
use expert_octo_doodle.Config.Endpoint.{
  Endpoint, UrlSettings, at_url, new_endpoint_with_config, endpoint_from_clone_url,
}
use expert_octo_doodle.Git.Remotes.{RemoteError, validate_remote}

-- What `SetEndpointAccess` has git write to `.git/config`.
pub data LocalConfig : Type 0 where
  unset_local_key : Bytes → LocalConfig
  set_local : Bytes → Bytes → LocalConfig

-- `written` is what git was told, the last first.
pub record Configuration : Type 0 where
  pub git : GitFetcher
  pub current_remote : Bytes
  pub manual_endpoint : Option Endpoint
  pub url_aliases_map : Map Bytes
  pub written : List LocalConfig

abbrev pub default_remote_name : Bytes
default_remote_name = codes "origin"

abbrev pub git_get : Configuration → Fetcher
git_get c key = get key c.git

abbrev pub set_manual_endpoint : Endpoint → Configuration → Configuration
set_manual_endpoint e c = record c { manual_endpoint = some e }

abbrev pub settings_of : Configuration → UrlSettings
settings_of c = record { git = git_get c; aliases = c.url_aliases_map }

abbrev pub access_key : Endpoint → Bytes
access_key e = codes "lfs." ++ (e.url ++ codes ".access")

abbrev pub access_of : Option Bytes → Bytes
access_of none = codes "none"
access_of (some []) = codes "none"
access_of (some (c ∷ v)) =
    let lower = to_lower (c ∷ v) in if equal lower (codes "private") then codes "basic" else lower

unfoldable pub endpoint_access : Endpoint → Configuration → Bytes
unfolding get to_lower equal
endpoint_access e c = access_of (git_get c (access_key e))

unfoldable pub set_endpoint_access : Endpoint → Bytes → Configuration → Configuration
unfolding set del equal
set_endpoint_access e auth_type c =
    let key = access_key e in
    if equal auth_type [] || equal auth_type (codes "none")
    then record c { git = del key c.git; written = unset_local_key key ∷ c.written }
    else record c { git = set key auth_type c.git; written = set_local key auth_type ∷ c.written }

abbrev pub is_upload : Bytes → Bool
is_upload operation = equal operation (codes "upload")

-- A key of a remote.
abbrev pub remote_key_of : Bytes → Bytes → Bytes
remote_key_of remote prop = codes "remote." ++ (remote ++ prop)

-- The value of a key that is read for an upload only.
abbrev pub for_upload : Bool → Option Bytes → Option Bytes
for_upload true value = value
for_upload false value = none

-- Two settings that are asked for in turn, and what is done with the first that is there.
abbrev pub first_set {ℓ} : {A : Type ℓ} → (Bytes → A) → Option Bytes → Option Bytes → A → A
first_set make (some url) second other = make url
first_set make none (some url) other = make url
first_set make none none other = other

-- `err == nil && n > 0`
abbrev pub uploads_of : Option ℤ → ℕ
uploads_of none = 3
uploads_of (some (negsuc n)) = 3
uploads_of (some (pos zero)) = 3
uploads_of (some (pos (suc n))) = suc n

abbrev atoi : Option Bytes → Option ℤ
atoi none = none
atoi (some v) = parse_int 10 v

-- `remotes` is what `git remote` lists, for `ValidateRemote`.
module _ (parser : UrlParser) (remotes : Option (List Bytes)) where
  unfoldable pub git_remote_url : Bytes → Bool → Configuration → Bytes
  unfolding get validate_remote
  git_remote_url remote forpush c =
      first_set (λ u. u) (for_upload forpush (git_get c (remote_key_of remote (codes ".pushurl"))))
        (git_get c (remote_key_of remote (codes ".url")))
        (elim (validate_remote parser remotes remote) [ none ↦ remote | some e ↦ [] ])

  abbrev pub or_default : Bytes → Bytes
  or_default [] = default_remote_name
  or_default (c ∷ remote) = c ∷ remote

  abbrev pub from_clone_url : Bytes → Configuration → Endpoint
  from_clone_url [] c = at_url []
  from_clone_url (u ∷ url) c = endpoint_from_clone_url parser (u ∷ url) (settings_of c)

  unfoldable pub remote_endpoint : Bytes → Bytes → Configuration → Endpoint
  unfolding git_remote_url endpoint_from_clone_url new_endpoint_with_config get
  remote_endpoint name operation c =
      let remote = or_default name in
      first_set (λ url. new_endpoint_with_config parser url (settings_of c))
        (for_upload (is_upload operation) (git_get c (remote_key_of remote (codes ".lfspushurl"))))
        (git_get c (remote_key_of remote (codes ".lfsurl")))
        (from_clone_url (git_remote_url remote (is_upload operation) c) c)

  -- `len(endpoint.Url) > 0`
  abbrev pub endpoint_or : Endpoint → Endpoint → Endpoint
  endpoint_or e other = elim e.url [ [] ↦ other | u ∷ url ↦ e ]

  -- The end of `Endpoint`: the current remote unless it is the default one, then the default one.
  abbrev pub endpoint_of_remotes : Bytes → Bytes → Configuration → Endpoint
  endpoint_of_remotes current operation c =
      let fallback = remote_endpoint default_remote_name operation c in
      if equal current [] || equal current default_remote_name
      then fallback
      else endpoint_or (remote_endpoint current operation c) fallback

  -- `Endpoint`
  unfoldable pub endpoint : Bytes → Configuration → Endpoint
  unfolding remote_endpoint new_endpoint_with_config get equal
  endpoint operation c = elim c.manual_endpoint [
    | some e ↦ e
    | none ↦
        first_set (λ url. new_endpoint_with_config parser url (settings_of c))
          (for_upload (is_upload operation) (git_get c (codes "lfs.pushurl")))
          (git_get c (codes "lfs.url")) (endpoint_of_remotes c.current_remote operation c)
  ]

  unfoldable pub access : Bytes → Configuration → Bytes
  unfolding endpoint_access endpoint
  access operation c = endpoint_access (endpoint operation c) c

  unfoldable pub set_access : Bytes → Bytes → Configuration → Configuration
  unfolding set_endpoint_access endpoint
  set_access operation auth_type c = set_endpoint_access (endpoint operation c) auth_type c

  unfoldable pub ntlm_access : Bytes → Configuration → Bool
  unfolding access equal
  ntlm_access operation c = equal (access operation c) (codes "ntlm")

  unfoldable pub private_access : Bytes → Configuration → Bool
  unfolding access equal
  private_access operation c = not (equal (access operation c) (codes "none"))

  unfoldable pub concurrent_transfers : Configuration → ℕ
  unfolding ntlm_access get
  concurrent_transfers c =
      if ntlm_access (codes "download") c
      then 1
      else uploads_of (atoi (git_get c (codes "lfs.concurrenttransfers")))

unfoldable pub basic_transfers_only : Configuration → Bool
unfolding bool get
basic_transfers_only c = bool (git_get c) (codes "lfs.basictransfersonly") false

unfoldable pub tus_transfers_allowed : Configuration → Bool
unfolding bool get
tus_transfers_allowed c = bool (git_get c) (codes "lfs.tustransfers") false

unfoldable pub batch_transfer : Configuration → Bool
unfolding bool get
batch_transfer c = bool (git_get c) (codes "lfs.batch") true

-- `SkipDownloadErrors`, with the environment of the process.
unfoldable pub skip_download_errors : Fetcher → Configuration → Bool
unfolding bool get
skip_download_errors os c =
    bool os (codes "GIT_LFS_SKIP_DOWNLOAD_ERRORS") false
    || bool (git_get c) (codes "lfs.skipdownloaderrors") false
