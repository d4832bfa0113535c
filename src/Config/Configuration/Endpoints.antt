-- ===== src/Config/Configuration/Endpoints.antt =====
-- The endpoint depends on few keys of Git's configuration, and a change of the access is none of them.
use expert_octo_doodle.Common.{
  List, [], ◌∷◌, Option, none, some, Bool, ◌||◌, if◌then◌else◌, Bytes, codes, equal, ◌≡◌, refl, ap,
  ◌∙◌,
}
use expert_octo_doodle.Common.Urls.{UrlParser}
use expert_octo_doodle.Config.Environment.{Fetcher}
use expert_octo_doodle.Config.Endpoint.{
  new_endpoint_with_config, endpoint_from_clone_url, endpoint_of, endpoint_from_bare_ssh_url,
  endpoint_from_git_url, git_protocol,
}
use expert_octo_doodle.Config.Aliases.{replace_url_alias}
use expert_octo_doodle.Git.Remotes.{validate_remote}
use expert_octo_doodle.Config.Configuration.{
  Configuration, git_get, settings_of, endpoint, remote_endpoint, git_remote_url, remote_key_of,
  is_upload, for_upload, first_set, from_clone_url, or_default, endpoint_or, default_remote_name,
}

-- The keys that the choice of an endpoint reads.
pub record SameUrls (c d : Configuration) : Type 0 where
  pub manual : d.manual_endpoint ≡ c.manual_endpoint
  pub remote : d.current_remote ≡ c.current_remote
  pub aliases : d.url_aliases_map ≡ c.url_aliases_map
  pub protocol : git_get d (codes "lfs.gitprotocol") ≡ git_get c (codes "lfs.gitprotocol")
  pub url : git_get d (codes "lfs.url") ≡ git_get c (codes "lfs.url")
  pub push_url : git_get d (codes "lfs.pushurl") ≡ git_get c (codes "lfs.pushurl")
  pub of_remote :
      (name prop : Bytes)
      → git_get d (remote_key_of name prop) ≡ git_get c (remote_key_of name prop)

module _ (parser : UrlParser) (remotes : Option (List Bytes)) where
  open parser use {Url, parse}

  endpoint_of-same :
      (f g : Fetcher) (rawurl : Bytes) (u : Url)
      → g (codes "lfs.gitprotocol") ≡ f (codes "lfs.gitprotocol")
      → endpoint_of parser g rawurl u ≡ endpoint_of parser f rawurl u
  unfolding endpoint_of endpoint_from_git_url git_protocol
  endpoint_of-same f g rawurl u h = rw h

  module _ (c d : Configuration) (same : SameUrls c d) where
    settings-same_endpoint :
        (url rawurl : Bytes)
        → (elim (parse rawurl) [
          | none ↦ endpoint_from_bare_ssh_url parser rawurl
          | some u ↦ endpoint_of parser (git_get d) rawurl u
        ])
          ≡ (elim (parse rawurl) [
            | none ↦ endpoint_from_bare_ssh_url parser rawurl
            | some u ↦ endpoint_of parser (git_get c) rawurl u
          ])
    settings-same_endpoint url rawurl i = elim (parse rawurl) [
      | none ↦ endpoint_from_bare_ssh_url parser rawurl
      | some u ↦ endpoint_of-same (git_get c) (git_get d) rawurl u same.protocol i
    ]

    new_endpoint-same :
        (url : Bytes)
        → new_endpoint_with_config parser url (settings_of d)
          ≡ new_endpoint_with_config parser url (settings_of c)
    unfolding new_endpoint_with_config
    new_endpoint-same url =
        settings-same_endpoint url (replace_url_alias d.url_aliases_map url)
        ∙ ap
            (λ aliases.
              new_endpoint_with_config parser url (record { git = git_get c; aliases = aliases }))
            same.aliases

    clone_url-same :
        (url : Bytes)
        → endpoint_from_clone_url parser url (settings_of d)
          ≡ endpoint_from_clone_url parser url (settings_of c)
    unfolding endpoint_from_clone_url
    clone_url-same url = rw (new_endpoint-same url)

    from_clone_url-same :
        (url : Bytes) → from_clone_url parser remotes url d ≡ from_clone_url parser remotes url c
    from_clone_url-same [] = refl
    from_clone_url-same (u ∷ url) = clone_url-same (u ∷ url)

    git_remote_url-same :
        (name : Bytes) (forpush : Bool)
        → git_remote_url parser remotes name forpush d
          ≡ git_remote_url parser remotes name forpush c
    unfolding git_remote_url
    git_remote_url-same name forpush i =
        first_set (λ u. u) (for_upload forpush (same.of_remote name (codes ".pushurl") i))
          (same.of_remote name (codes ".url") i)
          (elim (validate_remote parser remotes name) [ none ↦ name | some e ↦ [] ])

    remote_endpoint-same :
        (name operation : Bytes)
        → remote_endpoint parser remotes name operation d
          ≡ remote_endpoint parser remotes name operation c
    unfolding remote_endpoint
    remote_endpoint-same name operation i =
        first_set (λ url. new_endpoint-same url i)
          (for_upload (is_upload operation)
            (same.of_remote (or_default parser remotes name) (codes ".lfspushurl") i))
          (same.of_remote (or_default parser remotes name) (codes ".lfsurl") i)
          ((ap (λ url. from_clone_url parser remotes url d)
                (git_remote_url-same (or_default parser remotes name) (is_upload operation))
              ∙ from_clone_url-same (
                  git_remote_url parser remotes (or_default parser remotes name)
                    (is_upload operation) c))
            i)

    -- What the endpoint is read from decides it.
    pub endpoint-same :
        (operation : Bytes)
        → endpoint parser remotes operation d ≡ endpoint parser remotes operation c
    unfolding endpoint
    endpoint-same operation i = elim (same.manual i) [
      | some e ↦ e
      | none ↦
          first_set (λ url. new_endpoint-same url i)
            (for_upload (is_upload operation) (same.push_url i)) (same.url i)
            (if equal (same.remote i) [] || equal (same.remote i) default_remote_name
              then remote_endpoint-same default_remote_name operation i
              else endpoint_or parser remotes (remote_endpoint-same (same.remote i) operation i)
                  (remote_endpoint-same default_remote_name operation i))
    ]
