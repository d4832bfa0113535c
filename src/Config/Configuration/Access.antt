-- ===== src/Config/Configuration/Access.antt =====
-- The access to an endpoint: what is set is what is read back, and the endpoint stays the same.
use expert_octo_doodle.Common.{
  ℤ, zero, suc, ℕ, ◌≤◌, List, [], ◌∷◌, ◌++◌, Option, none, some, true, false, ◌||◌, if◌then◌else◌,
  Bytes, codes, equal, equal_iff, equal_refl, ◌⊎◌, lookup-insert, lookup-remove, ◌≡◌, ◌≢◌, refl, ap,
  ◌∙◌, arith, Bool-cases, inl, inr, if_false, if_true, pos, negsuc,
}
use expert_octo_doodle.Common.Urls.{UrlParser}
use expert_octo_doodle.Config.GitFetcher.{get, set, del, to_lower}
use expert_octo_doodle.Config.Endpoint.{Endpoint}
use expert_octo_doodle.Config.Configuration.Endpoints.{SameUrls, endpoint-same}
use expert_octo_doodle.Config.Configuration.{
  Configuration, git_get, access_key, access_of, endpoint_access, set_endpoint_access, endpoint,
  access, set_access, ntlm_access, concurrent_transfers, uploads_of,
}

-- What a value of the access is read back as.
abbrev pub as_access : Bytes → Bytes
as_access auth_type = access_of (some auth_type)

-- What is set for a key is read back under this key, in any case of its letters, and no other value changes.
git_get-set :
    (e : Endpoint) (auth_type key : Bytes) (c : Configuration)
    → git_get (set_endpoint_access e auth_type c) key ≡ (
        if equal (to_lower (access_key e)) (to_lower key)
        then (if equal auth_type [] || equal auth_type (codes "none") then none else some auth_type)
        else git_get c key)
unfolding set_endpoint_access get set del
git_get-set e auth_type key c =
    elim (Bool-cases (equal auth_type [] || equal auth_type (codes "none"))) [
      | inl clear ↦ rw clear (lookup-remove (to_lower (access_key e)) (to_lower key) c.git.vals)
      | inr kept ↦
          rw kept (lookup-insert (to_lower (access_key e)) (to_lower key) auth_type c.git.vals)
    ]

kept_nil :
    access_of (if equal [] [] || equal [] (codes "none") then none else some []) ≡ as_access []
unfolding equal
kept_nil = refl

kept_none :
    access_of (
      if equal (codes "none") [] || equal (codes "none") (codes "none")
      then none
      else some (codes "none"))
    ≡ as_access (codes "none")
unfolding equal to_lower
kept_none = refl

access_of_kept :
    (auth_type : Bytes)
    → access_of
        (if equal auth_type [] || equal auth_type (codes "none") then none else some auth_type)
      ≡ as_access auth_type
access_of_kept auth_type = elim (Bool-cases (equal auth_type [])) [
  | inl empty ↦ rw ((equal_iff auth_type []).0 empty) kept_nil
  | inr more ↦ elim (Bool-cases (equal auth_type (codes "none"))) [
    | inl clear ↦ rw ((equal_iff auth_type (codes "none")).0 clear) kept_none
    | inr other ↦ rw (more, other)
  ]
]

-- The access that is set for an endpoint is read back, `private` as `basic` and nothing as `none`, and the access to
-- endpoints whose url differs in more than the case of its letters stays the same.
pub endpoint_access-set :
    (e other : Endpoint) (auth_type : Bytes) (c : Configuration)
    → endpoint_access other (set_endpoint_access e auth_type c) ≡ (
        if equal (to_lower (access_key e)) (to_lower (access_key other))
        then as_access auth_type
        else endpoint_access other c)
unfolding endpoint_access
endpoint_access-set e other auth_type c =
    elim (Bool-cases (equal (to_lower (access_key e)) (to_lower (access_key other)))) [
      | inl same ↦
          rw (git_get-set e auth_type (access_key other) c, same) (access_of_kept auth_type)
      | inr differs ↦ rw (git_get-set e auth_type (access_key other) c, differs)
    ]

last : Bytes → ℕ
last [] = 0
last (c ∷ []) = c
last (c ∷ d ∷ s) = last (d ∷ s)

last-access : (s : Bytes) → last (to_lower (s ++ codes ".access")) ≡ b's'
unfolding last to_lower
last-access [] = refl
last-access (c ∷ []) = refl
last-access (c ∷ d ∷ s) = last-access (d ∷ s)

-- A key that does not end as the key of an access does.
git_get-set_other :
    (e : Endpoint) (auth_type key : Bytes) (c : Configuration)
    → to_lower (access_key e) ≢ to_lower key
    → git_get (set_endpoint_access e auth_type c) key ≡ git_get c key
git_get-set_other e auth_type key c ne =
    git_get-set e auth_type key c ∙ if_false _ _ _ (differs (Bool-cases _))
  where
    differs :
        (equal (to_lower (access_key e)) (to_lower key) ≡ true)
          ⊎ (equal (to_lower (access_key e)) (to_lower key) ≡ false)
        → equal (to_lower (access_key e)) (to_lower key) ≡ false
    differs (inl same) = absurd (ne ((equal_iff _ _).0 same))
    differs (inr other) = other

-- The first byte is another one.
head_or : Bytes → ℕ
head_or [] = 0
head_or (c ∷ s) = c

set_endpoint_access-keeps :
    (e : Endpoint) (auth_type : Bytes) (c : Configuration)
    → let d = set_endpoint_access e auth_type c in
      (d.manual_endpoint ≡ c.manual_endpoint)
      × (d.current_remote ≡ c.current_remote)
      × (d.url_aliases_map ≡ c.url_aliases_map)
unfolding set_endpoint_access
set_endpoint_access-keeps e auth_type c =
    elim (Bool-cases (equal auth_type [] || equal auth_type (codes "none"))) [
      | inl clear ↦ rw clear (refl, refl, refl)
      | inr kept ↦ rw kept (refl, refl, refl)
    ]

set_endpoint_access-same :
    (e : Endpoint) (auth_type : Bytes) (c : Configuration)
    → SameUrls c (set_endpoint_access e auth_type c)
unfolding to_lower last head_or
set_endpoint_access-same e auth_type c = record {
  manual = (set_endpoint_access-keeps e auth_type c).0;
  remote = (set_endpoint_access-keeps e auth_type c).1;
  aliases = (set_endpoint_access-keeps e auth_type c).2;
  protocol = git_get-set_other e auth_type _ c (λ h. absurd (omega (arith, access-end, ap last h)));
  url = git_get-set_other e auth_type _ c (λ h. absurd (omega (arith, access-end, ap last h)));
  push_url = git_get-set_other e auth_type _ c (λ h. absurd (omega (arith, access-end, ap last h)));
  of_remote =
      λ name prop. git_get-set_other e auth_type _ c (λ h. absurd (omega (arith, ap head_or h)));
}
  where
    access-end : last (to_lower (access_key e)) ≡ b's'
    access-end = last-access (codes "lfs." ++ e.url)

uploads_of-pos : (n : Option ℤ) → 1 ≤ uploads_of n
uploads_of-pos none = omega arith
uploads_of-pos (some (negsuc n)) = omega arith
uploads_of-pos (some (pos zero)) = omega arith
uploads_of-pos (some (pos (suc n))) = omega arith

module _ (parser : UrlParser) (remotes : Option (List Bytes)) where
  -- The access that is set for an operation is the one that is found for it, `private` as `basic` and nothing
  -- as `none`, and the endpoints of all operations stay the same.
  pub access-set_access :
      (operation auth_type : Bytes) (c : Configuration)
      → let d = set_access parser remotes operation auth_type c in
        (access parser remotes operation d ≡ as_access auth_type)
        × ((other : Bytes) → endpoint parser remotes other d ≡ endpoint parser remotes other c)
  unfolding access set_access
  access-set_access operation auth_type c =
      let e = endpoint parser remotes operation c in
      let same =
        endpoint-same parser remotes c (set_endpoint_access e auth_type c)
          (set_endpoint_access-same e auth_type c) in
      (
        ap (λ found. endpoint_access found (set_endpoint_access e auth_type c)) (same operation)
            ∙ endpoint_access-set e e auth_type c
            ∙ if_true _ (as_access auth_type) (endpoint_access e c)
                (equal_refl (to_lower (access_key e))),
        same,
      )

  -- At least one transfer runs at a time, and with NTLM no more than one.
  pub concurrent_transfers_bounds :
      (c : Configuration)
      → (1 ≤ concurrent_transfers parser remotes c)
        × (access parser remotes (codes "download") c ≡ codes "ntlm"
            → concurrent_transfers parser remotes c ≡ 1)
  unfolding concurrent_transfers ntlm_access
  concurrent_transfers_bounds c =
      elim (Bool-cases (equal (access parser remotes (codes "download") c) (codes "ntlm"))) [
        | inl ntlm ↦ rw ntlm (omega arith, λ h. refl)
        | inr other ↦ rw other (
          uploads_of-pos _,
          λ h. cc ((equal_iff (access parser remotes (codes "download") c) (codes "ntlm")).1 h),
        )
      ]
