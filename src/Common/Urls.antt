-- ===== src/Common/Urls.antt =====
-- The package `net/url`, as far as the code calls it: a parameter.
use expert_octo_doodle.Common.Texts.{Bytes}
use mathlib.Core.Option.{Option}

-- `username` is `none` where `u.User` is nil; `with_scheme` is an assignment to `u.Scheme`.
pub record UrlParser : Type 1 where
  pub Url : Type 0
  pub parse : Bytes → Option Url
  pub scheme : Url → Bytes
  pub username : Url → Option Bytes
  pub host : Url → Bytes
  pub path : Url → Bytes
  pub with_scheme : Bytes → Url → Url
  pub to_string : Url → Bytes
