-- ===== src/Config/Endpoint/CloneUrl.antt =====
-- The endpoint of a repository that is known by the url it was cloned from.
use expert_octo_doodle.Common.{
  ℕ, [], ◌∷◌, ◌++◌, Option, none, some, if◌then◌else◌, Bytes, codes, equal, equal_iff, split_once,
  ◌≡◌, refl, sym, ap, ◌∙◌, Bool-cases, inl, inr, ◌⊎◌, append_assoc, append-nil, ◌==◌,
}
use expert_octo_doodle.Common.Urls.{UrlParser}
use expert_octo_doodle.Config.Aliases.{has_suffix}
use expert_octo_doodle.Config.Endpoint.{
  UrlSettings, endpoint_url_unknown, new_endpoint_with_config, endpoint_from_clone_url, with_info,
  ext, ext_from, all_but_last,
}

-- An extension is the end of its path.
ext_from-end :
    (c : ℕ) (s e : Bytes) (slash : Option (Bytes × Bytes)) (front : Bytes)
    → s ≡ front ++ e
    → (before : Bytes) × (c ∷ s ≡ before ++ ext_from c s e slash)
ext_from-end c s (d ∷ e) slash front h = (c ∷ front, ap (λ t. c ∷ t) h)
ext_from-end c s [] (some parts) front h = (c ∷ s, sym (append-nil (c ∷ s)))
ext_from-end c s [] none front h = elim (Bool-cases (c == b'.')) [
  | inl dot ↦ ([], rw (dot, ext_from))
  | inr other ↦ (c ∷ s, rw (other, ext_from) (sym (append-nil (c ∷ s))))
]

ext-end : (s : Bytes) → (front : Bytes) × (s ≡ front ++ ext s)
unfolding ext
ext-end [] = ([], refl)
ext-end (c ∷ s) =
    let below = ext-end s in ext_from-end c s (ext s) (split_once b'/' s) below.0 below.1

with_info-end : (url : Bytes) → (front : Bytes) × (with_info url ≡ front ++ codes ".git/info/lfs")
with_info-end url = elim (Bool-cases (equal (ext url) (codes ".git"))) [
  | inl git ↦
      let (front, whole) = ext-end url in
      (
        front,
        rw (git, with_info)
            (ap (λ t. t ++ codes "/info/lfs") (whole ∙ ap (λ t. front ++ t) ((equal_iff _ _).0 git))
              ∙ append_assoc front (codes ".git") (codes "/info/lfs")),
      )
  | inr other ↦ (url, rw (other, with_info))
]

module _ (parser : UrlParser) where
  -- The url of an endpoint that is made from the url of a clone is unknown or ends with `.git/info/lfs`.
  pub endpoint_from_clone_url_end :
      (url : Bytes) (c : UrlSettings)
      → let e = endpoint_from_clone_url parser url c in
        (e.url ≡ endpoint_url_unknown)
        ⊎ ((front : Bytes) × (e.url ≡ front ++ codes ".git/info/lfs"))
  unfolding endpoint_from_clone_url
  endpoint_from_clone_url_end url c =
      let e = new_endpoint_with_config parser url c in
      elim (Bool-cases (equal e.url endpoint_url_unknown)) [
        | inl unknown ↦ rw unknown (inl ((equal_iff e.url endpoint_url_unknown).0 unknown))
        | inr known ↦
            rw known
              (inr (with_info-end (if has_suffix url (codes "/") then all_but_last url else e.url)))
      ]
