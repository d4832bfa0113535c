-- ===== src/Config/Endpoint.antt =====
-- config/endpoint.go: how a url becomes an endpoint. `net/url` is a parameter; `regexp` on the host is
-- written out.
pub mod CloneUrl
use expert_octo_doodle.Common.{
  ℕ, ◌-◌, List, [], ◌∷◌, ◌++◌, Option, none, some, Bool, true, false, not, ◌&&◌, ◌||◌,
  if◌then◌else◌, leb, ltb, ◌==◌, Bytes, codes, equal, has_prefix, split_once, length, take, drop,
  Map,
}
use expert_octo_doodle.Common.Urls.{UrlParser}
use expert_octo_doodle.Config.GitFetcher.{split}
use expert_octo_doodle.Config.Environment.{Fetcher, text_or}
use expert_octo_doodle.Config.Aliases.{has_suffix, replace_url_alias}

pub record Endpoint : Type 0 where
  pub url : Bytes
  pub ssh_user_and_host : Bytes
  pub ssh_path : Bytes
  pub ssh_port : Bytes

abbrev pub endpoint_url_unknown : Bytes
endpoint_url_unknown = codes "<unknown>"

-- `Endpoint{Url: url}`
abbrev pub at_url : Bytes → Endpoint
at_url url = record { url = url; ssh_user_and_host = []; ssh_path = []; ssh_port = [] }

-- What the code reads of the configuration: the fetcher and the aliases of urls.
pub record UrlSettings : Type 0 where
  pub git : Fetcher
  pub aliases : Map Bytes

-- `strings.Join(parts, sep)` with a separator of one byte
unfoldable pub join : ℕ → List Bytes → Bytes
join sep [] = []
join sep (part ∷ []) = part
join sep (part ∷ next ∷ parts) = part ++ (sep ∷ join sep (next ∷ parts))

unfoldable pub are_digits : Bytes → Bool
are_digits [] = true
are_digits (c ∷ s) = leb b'0' c && (leb c b'9' && are_digits s)

abbrev is_empty : Bytes → Bool
is_empty [] = true
is_empty (c ∷ s) = false

-- The groups of `^([^\:]+)(?:\:(\d+))?$`.
unfoldable pub host_and_port : Bytes → Option (Bytes × Bytes)
unfolding split_once are_digits
host_and_port host = elim (split_once b':' host) [
  | none ↦ if is_empty host then none else some (host, [])
  | some parts ↦
      if is_empty parts.0 || (is_empty parts.1 || not (are_digits parts.1))
      then none
      else some parts
]

abbrev pub ext_from : ℕ → Bytes → Bytes → Option (Bytes × Bytes) → Bytes
ext_from c s (d ∷ e) slash = d ∷ e
ext_from c s [] (some parts) = []
ext_from c s [] none = if c == b'.' then c ∷ s else []

-- `path.Ext`: the end of the last element of the path, from its last dot.
unfoldable pub ext : Bytes → Bytes
unfolding split_once
ext [] = []
ext (c ∷ s) = ext_from c s (ext s) (split_once b'/' s)

-- `url[0 : len(url)-1]`
abbrev pub all_but_last : Bytes → Bytes
all_but_last s = take (length s - 1) s

abbrev pub strip_slash : Bytes → Bytes
strip_slash [] = []
strip_slash (c ∷ s) = if c == b'/' then s else c ∷ s

-- `u.User != nil && u.User.Username() != ""`
abbrev user_and_host : Option Bytes → Bytes → Bytes
user_and_host none host = host
user_and_host (some []) host = host
user_and_host (some (c ∷ user)) host = (c ∷ user) ++ (b'@' ∷ host)

-- `GitProtocol`
unfoldable pub git_protocol : Fetcher → Bytes
git_protocol f = text_or (f (codes "lfs.gitprotocol")) (codes "https")

-- `e.Url` with the end of the address of the LFS server.
abbrev pub with_info : Bytes → Bytes
with_info url =
    if equal (ext url) (codes ".git")
    then url ++ codes "/info/lfs"
    else url ++ codes ".git/info/lfs"

module _ (parser : UrlParser) where
  open parser use {Url, parse, scheme, username, host, path, with_scheme, to_string}

  unfoldable pub endpoint_from_ssh_url : Url → Endpoint
  unfolding host_and_port
  endpoint_from_ssh_url u = elim (host_and_port (host u)) [
    | none ↦ at_url endpoint_url_unknown
    | some m ↦ record {
      url = codes "https://" ++ (m.0 ++ path u);
      ssh_user_and_host = user_and_host (username u) m.0;
      ssh_path = strip_slash (path u);
      ssh_port = m.1;
    }
  ]

  abbrev pub bare_path : List Bytes → Bytes
  bare_path [] = []
  bare_path (a ∷ []) = a
  bare_path (a ∷ b ∷ []) = join b'/' (a ∷ b ∷ [])
  bare_path (a ∷ b ∷ c ∷ parts) = a ++ (b':' ∷ join b'/' (b ∷ c ∷ parts))

  unfoldable pub endpoint_from_bare_ssh_url : Bytes → Endpoint
  unfolding endpoint_from_ssh_url join split
  endpoint_from_bare_ssh_url rawurl =
      let parts = split b':' rawurl in
      if ltb (length parts) 2
      then at_url rawurl
      else elim (parse (codes "ssh://" ++ bare_path parts)) [
        | none ↦ at_url endpoint_url_unknown
        | some u ↦ endpoint_from_ssh_url u
      ]

  abbrev pub endpoint_from_http_url : Url → Endpoint
  endpoint_from_http_url u = at_url (to_string u)

  unfoldable pub endpoint_from_git_url : Fetcher → Url → Endpoint
  unfolding git_protocol
  endpoint_from_git_url f u = at_url (to_string (with_scheme (git_protocol f) u))

  -- The `switch` over the scheme.
  unfoldable pub endpoint_of : Fetcher → Bytes → Url → Endpoint
  unfolding endpoint_from_ssh_url endpoint_from_git_url endpoint_from_bare_ssh_url
  endpoint_of f rawurl u =
      if equal (scheme u) (codes "ssh")
      then endpoint_from_ssh_url u
      else if equal (scheme u) (codes "http") || equal (scheme u) (codes "https")
      then endpoint_from_http_url u
      else if equal (scheme u) (codes "git")
      then endpoint_from_git_url f u
      else if equal (scheme u) []
      then endpoint_from_bare_ssh_url (to_string u)
      else at_url rawurl

  unfoldable pub new_endpoint_with_config : Bytes → UrlSettings → Endpoint
  unfolding endpoint_of replace_url_alias endpoint_from_bare_ssh_url
  new_endpoint_with_config url c =
      let rawurl = replace_url_alias c.aliases url in
      elim (parse rawurl) [
        | none ↦ endpoint_from_bare_ssh_url rawurl
        | some u ↦ endpoint_of c.git rawurl u
      ]

  unfoldable pub endpoint_from_clone_url : Bytes → UrlSettings → Endpoint
  unfolding new_endpoint_with_config ext
  endpoint_from_clone_url url c =
      let e = new_endpoint_with_config url c in
      if equal e.url endpoint_url_unknown then e else record e {
        url = with_info (if has_suffix url (codes "/") then all_but_last url else e.url);
      }
