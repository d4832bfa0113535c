-- ===== src/Transfer/Manifest/Names.antt =====
-- The names that a manifest offers are those that it can make adapters for.
use expert_octo_doodle.Common.{
  List, [], ◌∷◌, none, some, Bool, true, false, if◌then◌else◌, ◌&&◌, Bytes, equal, equal_refl, Map,
  lookup, lookup-insert, ◌≡◌, ◌≢◌, refl, arith, All, Bool-cases, Option-cases, inl, inr,
}
use expert_octo_doodle.Transfer.Manifest.{
  Direction, upload, download, basic_adapter_name, NewAdapterFunc, Manifest, funcs, keys,
  get_adapter_names, register, new_adapter,
}

abbrev pub same_direction : Direction → Direction → Bool
same_direction upload upload = true
same_direction download download = true
same_direction _ _ = false

All-if :
    (P : Bytes → Type 0) (b : Bool) (xs ys : List Bytes)
    → All P xs
    → All P ys
    → All P (if b then xs else ys)
All-if P true xs ys h k = h
All-if P false xs ys h k = k

module _ {A : Type 0} where
  key_found :
      (k : Bytes) (m n : Map (NewAdapterFunc A)) (f : NewAdapterFunc A)
      → lookup k ((k, f) ∷ m) ≢ none
  unfolding lookup
  key_found k m n f = rw (equal_refl k) (λ p. cc)

  All-cons-lookup :
      (ks : List Bytes) (j : Bytes) (f : NewAdapterFunc A) (m : Map (NewAdapterFunc A))
      → All (λ k. lookup k m ≢ none) ks
      → All (λ k. lookup k ((j, f) ∷ m) ≢ none) ks
  unfolding lookup
  All-cons-lookup [] j f m h = tt
  All-cons-lookup (k ∷ ks) j f m (one, h) = (
    elim (Bool-cases (equal j k)) [ inl same ↦ rw same (λ p. cc) | inr other ↦ rw other one ],
    All-cons-lookup ks j f m h,
  )

  keys-lookup : (m : Map (NewAdapterFunc A)) → All (λ k. lookup k m ≢ none) (keys m)
  keys-lookup [] = tt
  keys-lookup ((k, f) ∷ m) = (key_found k m m f, All-cons-lookup (keys m) k f m (keys-lookup m))

  new_adapter-ne-none :
      (name : Bytes) (dir : Direction) (m : Manifest A)
      → lookup name (funcs dir m) ≢ none
      → new_adapter name dir m ≢ none
  unfolding new_adapter
  new_adapter-ne-none name dir m h = elim (Option-cases (lookup name (funcs dir m))) [
    | inl missing ↦ absurd (h missing)
    | inr (f, found) ↦ rw (found, new_adapter) (λ p. cc)
  ]

  All-new_adapter :
      (ks : List Bytes) (dir : Direction) (m : Manifest A)
      → All (λ k. lookup k (funcs dir m) ≢ none) ks
      → All (λ k. new_adapter k dir m ≢ none) ks
  All-new_adapter [] dir m h = tt
  All-new_adapter (k ∷ ks) dir m (one, h) =
      (new_adapter-ne-none k dir m one, All-new_adapter ks dir m h)

  -- Every name that `GetAdapterNames` gives for a direction, and that a server may pick, is one that
  -- `NewAdapter` makes an adapter for, where the basic adapter is registered for the direction.
  pub get_adapter_names-new_adapter :
      (dir : Direction) (m : Manifest A)
      → new_adapter basic_adapter_name dir m ≢ none
      → All (λ name. new_adapter name dir m ≢ none) (get_adapter_names dir m)
  unfolding get_adapter_names
  get_adapter_names-new_adapter dir m basic =
      All-if (λ name. new_adapter name dir m ≢ none) m.basic_transfers_only
        (basic_adapter_name ∷ []) (keys (funcs dir m)) (basic, tt)
        (All-new_adapter (keys (funcs dir m)) dir m (keys-lookup (funcs dir m)))

  -- A registration decides over its own name and direction, over an earlier one too, and over no other.
  pub new_adapter-register :
      (name other : Bytes) (dir way : Direction) (f : NewAdapterFunc A) (m : Manifest A)
      → new_adapter other way (register name dir f m) ≡ (
          if same_direction dir way && equal name other
          then some (f other way)
          else new_adapter other way m)
  unfolding new_adapter register
  new_adapter-register name other upload upload f m =
      ground (arith, lookup-insert name other f m.upload_adapter_funcs)
  new_adapter-register name other upload download f m = refl
  new_adapter-register name other download upload f m = refl
  new_adapter-register name other download download f m =
      ground (arith, lookup-insert name other f m.download_adapter_funcs)
