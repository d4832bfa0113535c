-- ===== src/Lfs/Attribute/Installed.antt =====
-- What an installation leaves in Git's configuration.
use expert_octo_doodle.Common.{
  List, [], ◌∷◌, none, some, Bool, true, false, ◌&&◌, ◌||◌, Bytes, equal, equal_iff, trim_space,
  ◌≡◌, refl, sym, ap, ◌∙◌, All, Bool-cases, Option-cases, inl, inr,
}
use mathlib.Core.Path.{subst}
use expert_octo_doodle.Lfs.Attribute.{
  Scope, local, system, global, same_scope, AttributeError, differs, GitConfigTool, Attribute,
  InstallOptions, scope_of, normalize_key, should_reset, upgradeables_of, set, install_all, install,
}

same_scope_refl : (sc : Scope) → same_scope sc sc ≡ true
same_scope_refl local = refl
same_scope_refl system = refl
same_scope_refl global = refl

same_scope_eq : (c d : Scope) → same_scope c d ≡ true → c ≡ d
same_scope_eq local local h = refl
same_scope_eq system system h = refl
same_scope_eq global global h = refl
same_scope_eq local system h = cc
same_scope_eq local global h = cc
same_scope_eq system local h = cc
same_scope_eq system global h = cc
same_scope_eq global local h = cc
same_scope_eq global system h = cc

and-true : (x y : Bool) → (x && y) ≡ true → (x ≡ true) × (y ≡ true)
and-true true y h = (refl, h)
and-true false y h = cc

module _ (tool : GitConfigTool) (a : Attribute) (opt : InstallOptions) where
  open tool use {State, same_key, find, unset_key, set_key}

  -- A change of one key leaves the others alone.
  set-other :
      (key value other : Bytes) (upgradeables : List Bytes) (d : Scope) (s : State)
      → (same_scope (scope_of opt) d && same_key key other) ≡ false
      → find d other (set tool a opt key value upgradeables s).1 ≡ find d other s
  unfolding set
  set-other key value other upgradeables d s ne =
      elim (Bool-cases (opt.force || should_reset (find (scope_of opt) key s) upgradeables)) [
        | inl reset ↦ rw reset (
            tool.find-set_other (scope_of opt) d key other value (unset_key (scope_of opt) key s) ne
            ∙ tool.find-unset_other (scope_of opt) d key other s ne)
        | inr kept ↦ elim (Bool-cases (equal (find (scope_of opt) key s) value)) [
          | inl same ↦ rw (kept, same)
          | inr other_value ↦ rw (kept, other_value)
        ]
      ]

  -- The branches of a change.
  set-reset :
      (key value : Bytes) (upgradeables : List Bytes) (s : State)
      → (opt.force || should_reset (find (scope_of opt) key s) upgradeables) ≡ true
      → set tool a opt key value upgradeables s
        ≡ set_key (scope_of opt) key value (unset_key (scope_of opt) key s)
  unfolding set
  set-reset key value upgradeables s reset = rw reset

  set-same :
      (key value : Bytes) (upgradeables : List Bytes) (s : State)
      → (opt.force || should_reset (find (scope_of opt) key s) upgradeables) ≡ false
      → equal (find (scope_of opt) key s) value ≡ true
      → set tool a opt key value upgradeables s ≡ (none, s)
  unfolding set
  set-same key value upgradeables s kept same = rw (kept, same)

  set-differs :
      (key value : Bytes) (upgradeables : List Bytes) (s : State)
      → (opt.force || should_reset (find (scope_of opt) key s) upgradeables) ≡ false
      → equal (find (scope_of opt) key s) value ≡ false
      → set tool a opt key value upgradeables s
        ≡ (some (differs key value (find (scope_of opt) key s)), s)
  unfolding set
  set-differs key value upgradeables s kept other = rw (kept, other)

  -- A change that succeeds sets its key.
  set-sets :
      (key value : Bytes) (upgradeables : List Bytes) (s : State)
      → trim_space value ≡ value
      → (set tool a opt key value upgradeables s).0 ≡ none
      → find (scope_of opt) key (set tool a opt key value upgradeables s).1 ≡ value
  set-sets key value upgradeables s trimmed done =
      elim (Bool-cases (opt.force || should_reset (find (scope_of opt) key s) upgradeables)) [
        | inl reset ↦
            let now = set-reset key value upgradeables s reset in
            tool.find-set_key (scope_of opt) key value (unset_key (scope_of opt) key s) _ trimmed
              (sym now ∙ (λ i. (done i, (set tool a opt key value upgradeables s).1)))
        | inr kept ↦ elim (Bool-cases (equal (find (scope_of opt) key s) value)) [
          | inl same ↦
              ap (λ r. find (scope_of opt) key r.1) (set-same key value upgradeables s kept same)
              ∙ (equal_iff (find (scope_of opt) key s) value).0 same
          | inr other ↦
              cc (ap (λ r. r.0) (sym (set-differs key value upgradeables s kept other)) ∙ done)
        ]
      ]

  -- What is neither empty nor an earlier value is kept, unless it is forced.
  set-kept :
      (key value : Bytes) (upgradeables : List Bytes) (s : State)
      → opt.force ≡ false
      → should_reset (find (scope_of opt) key s) upgradeables ≡ false
      → (set tool a opt key value upgradeables s).1 ≡ s
  set-kept key value upgradeables s gently keep =
      let kept : (opt.force || should_reset (find (scope_of opt) key s) upgradeables) ≡ false =
        rw (gently, keep) in
      elim (Bool-cases (equal (find (scope_of opt) key s) value)) [
        | inl same ↦ ap (λ r. r.1) (set-same key value upgradeables s kept same)
        | inr other ↦ ap (λ r. r.1) (set-differs key value upgradeables s kept other)
      ]

  install_all-next :
      (k v : Bytes) (properties : List (Bytes × Bytes)) (s : State)
      → let done = set tool a opt (normalize_key a k) v (upgradeables_of a k) s in
        (done.0 ≡ none
          → install_all tool a opt ((k, v) ∷ properties) s
            ≡ install_all tool a opt properties done.1)
        × ((e : AttributeError)
            → done.0 ≡ some e
            → install_all tool a opt ((k, v) ∷ properties) s ≡ (some e, done.1))
  unfolding install_all
  install_all-next k v properties s =
      (λ done. rw (done, install_all), λ e failed. rw (failed, install_all))

  -- A key that is not among those of some properties.
  abbrev pub Absent : Bytes → List (Bytes × Bytes) → Type 0
  Absent key [] = Unit
  Absent key ((k, v) ∷ properties) =
      (same_key (normalize_key a k) key ≡ false) × Absent key properties

  abbrev pub DistinctKeys : List (Bytes × Bytes) → Type 0
  DistinctKeys [] = Unit
  DistinctKeys ((k, v) ∷ properties) =
      Absent (normalize_key a k) properties × DistinctKeys properties

  -- Each entry of the loop keeps a value.
  abbrev KeptBy : Scope → Bytes → Bytes → List (Bytes × Bytes) → Type 0
  KeptBy d key kept = All λ kv.
      (t : State)
      → find d key t ≡ kept
      → find d key (set tool a opt (normalize_key a kv.0) kv.1 (upgradeables_of a kv.0) t).1 ≡ kept

  install_all-keeps :
      (d : Scope) (key : Bytes) (kept : Bytes) (properties : List (Bytes × Bytes)) (s : State)
      → KeptBy d key kept properties
      → find d key s ≡ kept
      → find d key (install_all tool a opt properties s).1 ≡ kept
  unfolding install_all
  install_all-keeps d key kept [] s steps h = h
  install_all-keeps d key kept ((k, v) ∷ properties) s (step, steps) h =
      let done = set tool a opt (normalize_key a k) v (upgradeables_of a k) s in
      elim (Option-cases done.0) [
        | inl more ↦
            ap (λ r. find d key r.1) ((install_all-next k v properties s).0 more)
            ∙ install_all-keeps d key kept properties done.1 steps (step s h)
        | inr (e, failed) ↦
            ap (λ r. find d key r.1) ((install_all-next k v properties s).1 e failed) ∙ step s h
      ]

  KeptBy-of_Absent :
      (key kept : Bytes) (properties : List (Bytes × Bytes))
      → Absent key properties
      → KeptBy (scope_of opt) key kept properties
  KeptBy-of_Absent key kept [] h = tt
  KeptBy-of_Absent key kept ((k, v) ∷ properties) (ne, h) = (
    λ t found.
        set-other (normalize_key a k) v key (upgradeables_of a k) (scope_of opt) t
          (rw (same_scope_refl (scope_of opt), ne))
        ∙ found,
    KeptBy-of_Absent key kept properties h,
  )

  -- Each property has its value.
  abbrev pub HasValues : List (Bytes × Bytes) → State → Type 0
  HasValues properties s =
      All (λ kv. find (scope_of opt) (normalize_key a kv.0) s ≡ kv.1) properties

  install_all-HasValues :
      (properties : List (Bytes × Bytes)) (s : State)
      → DistinctKeys properties
      → All (λ kv. trim_space kv.1 ≡ kv.1) properties
      → (install_all tool a opt properties s).0 ≡ none
      → HasValues properties (install_all tool a opt properties s).1
  install_all-HasValues [] s distinct trimmed done = tt
  install_all-HasValues ((k, v) ∷ properties) s (absent, distinct) (trim, trimmed) ok =
      let done = set tool a opt (normalize_key a k) v (upgradeables_of a k) s in
      elim (Option-cases done.0) [
        | inr (e, failed) ↦
            cc (ap (λ r. r.0) (sym ((install_all-next k v properties s).1 e failed)) ∙ ok)
        | inl more ↦
            let next = (install_all-next k v properties s).0 more in
            subst (HasValues ((k, v) ∷ properties)) (ap (λ r. r.1) (sym next)) (
              install_all-keeps (scope_of opt) (normalize_key a k) v properties done.1
                  (KeptBy-of_Absent (normalize_key a k) v properties absent)
                  (set-sets (normalize_key a k) v (upgradeables_of a k) s trim more),
              install_all-HasValues properties done.1 distinct trimmed
                  (ap (λ r. r.0) (sym next) ∙ ok),
            )
      ]

  -- After an installation that succeeds every property is found with its value, if the keys differ and the values have no white space at
  -- their ends.
  pub install-HasValues :
      (s : State)
      → DistinctKeys a.properties
      → All (λ kv. trim_space kv.1 ≡ kv.1) a.properties
      → (install tool a opt s).0 ≡ none
      → HasValues a.properties (install tool a opt s).1
  unfolding install
  install-HasValues s distinct trimmed ok = install_all-HasValues a.properties s distinct trimmed ok

  -- A value that no property may reset: one of another scope, or one that is neither empty nor an earlier value of the properties
  -- with its key.
  abbrev pub IsForeign : Scope → Bytes → Bytes → List (Bytes × Bytes) → Type 0
  IsForeign d key value = All λ kv.
      (same_scope (scope_of opt) d && same_key (normalize_key a kv.0) key) ≡ true
      → should_reset value (upgradeables_of a kv.0) ≡ false

  KeptBy-of_Foreign :
      (d : Scope) (key value : Bytes) (properties : List (Bytes × Bytes))
      → opt.force ≡ false
      → IsForeign d key value properties
      → KeptBy d key value properties
  KeptBy-of_Foreign d key value [] gently h = tt
  KeptBy-of_Foreign d key value ((k, v) ∷ properties) gently (foreign, h) = (
    λ t found. elim (Bool-cases (same_scope (scope_of opt) d && same_key (normalize_key a k) key)) [
      | inr other ↦ set-other (normalize_key a k) v key (upgradeables_of a k) d t other ∙ found
      | inl same ↦
          let (scopes, keys) = and-true _ _ same in
          let reached : find (scope_of opt) (normalize_key a k) t ≡ value =
            tool.find-same_key (scope_of opt) (normalize_key a k) key t keys
            ∙ ap (λ sc. find sc key t) (same_scope_eq (scope_of opt) d scopes)
            ∙ found in
          ap (find d key) (
            set-kept (normalize_key a k) v (upgradeables_of a k) t gently
              (ap (λ x. should_reset x (upgradeables_of a k)) reached ∙ foreign same))
          ∙ found
    ],
    KeptBy-of_Foreign d key value properties gently h,
  )

  -- Without force an installation changes no value of another scope, and none that is neither empty nor an earlier
  -- value of git-lfs, whether it succeeds or fails.
  pub install-kept :
      (d : Scope) (key : Bytes) (s : State)
      → opt.force ≡ false
      → IsForeign d key (find d key s) a.properties
      → find d key (install tool a opt s).1 ≡ find d key s
  unfolding install
  install-kept d key s gently foreign =
      install_all-keeps d key (find d key s) a.properties s
        (KeptBy-of_Foreign d key (find d key s) a.properties gently foreign) refl
