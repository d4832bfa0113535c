-- ===== src/Tests/Configs.antt =====
-- The configuration: aliases of urls, endpoints and the access to them.
use expert_octo_doodle.Common.{
  ◌≤◌, [], ◌∷◌, ◌++◌, none, some, Bytes, codes, equal, lookup, Map, ◌≡◌, refl, arith, ◌⊎◌, take,
}
use expert_octo_doodle.Common.Urls.{UrlParser}
use expert_octo_doodle.Config.Aliases.{url_aliases, replace_url_alias}
use expert_octo_doodle.Config.Aliases.Longest.{replace_url_alias-Longest}
use expert_octo_doodle.Config.Aliases.Panics.{url_aliases-panic}
use expert_octo_doodle.Config.Endpoint.{UrlSettings, endpoint_url_unknown, endpoint_from_clone_url}
use expert_octo_doodle.Config.Endpoint.CloneUrl.{endpoint_from_clone_url_end}
use expert_octo_doodle.Config.Configuration.{
  Configuration, access, set_access, endpoint, concurrent_transfers,
}
use expert_octo_doodle.Config.Configuration.Access.{
  as_access, access-set_access, concurrent_transfers_bounds,
}

abbrev aliases : Map Bytes
aliases = (codes "g:", codes "https://git/") ∷ (codes "g:team/", codes "https://team/") ∷ []

replace_url_alias-Longest_example :
    replace_url_alias aliases (codes "g:team/" ++ codes "repo")
    ≡ codes "https://team/" ++ codes "repo"
replace_url_alias-Longest_example =
    replace_url_alias-Longest aliases (codes "g:team/") (codes "https://team/") (codes "repo")
      (λ e. cc) (unfold lookup equal in refl) (λ h. omega arith, (λ h. omega arith, tt))

url_aliases-panic_example :
    url_aliases ((codes "lfs.url", codes "x") ∷ (codes "url.insteadof", codes "y") ∷ []) [] ≡ none
url_aliases-panic_example =
    url_aliases-panic ((codes "lfs.url", codes "x") ∷ (codes "url.insteadof", codes "y") ∷ []) []
      (unfold equal in refl)

-- A parser that knows `ssh://host/...` only.
abbrev ssh_parser : UrlParser
ssh_parser = record {
  Url = Bytes;
  parse = λ s. some s;
  scheme = λ s. take 3 s;
  username = λ s. none;
  host = λ s. codes "host";
  path = λ s. codes "/repo/";
  with_scheme = λ sch s. s;
  to_string = λ s. s;
}

abbrev no_values : UrlSettings
no_values = record { git = λ key. none; aliases = [] }

-- An ssh url without a slash at its end is given an https url.
ssh_url_https :
    (endpoint_from_clone_url ssh_parser (codes "ssh://host/repo") no_values).url
    ≡ codes "https://host/repo/.git/info/lfs"
unfolding endpoint_from_clone_url equal
ssh_url_https = refl

endpoint_from_clone_url_end_example :
    let e = endpoint_from_clone_url ssh_parser (codes "ssh://host/repo") no_values in
    (e.url ≡ endpoint_url_unknown) ⊎ ((front : Bytes) × (e.url ≡ front ++ codes ".git/info/lfs"))
endpoint_from_clone_url_end_example =
    endpoint_from_clone_url_end ssh_parser (codes "ssh://host/repo") no_values

abbrev with_url : Configuration
with_url = record {
  git = record { vals = (codes "lfs.url", codes "https://host/lfs") ∷ [] };
  current_remote = codes "origin";
  manual_endpoint = none;
  url_aliases_map = [];
  written = [];
}

access-set_access_example :
    let d = set_access ssh_parser (some []) (codes "download") (codes "PRIVATE") with_url in
    (access ssh_parser (some []) (codes "download") d ≡ as_access (codes "PRIVATE"))
    × ((other : Bytes)
        → endpoint ssh_parser (some []) other d ≡ endpoint ssh_parser (some []) other with_url)
access-set_access_example =
    access-set_access ssh_parser (some []) (codes "download") (codes "PRIVATE") with_url

concurrent_transfers_bounds_example :
    (1 ≤ concurrent_transfers ssh_parser (some []) with_url)
    × (access ssh_parser (some []) (codes "download") with_url ≡ codes "ntlm"
        → concurrent_transfers ssh_parser (some []) with_url ≡ 1)
concurrent_transfers_bounds_example = concurrent_transfers_bounds ssh_parser (some []) with_url
