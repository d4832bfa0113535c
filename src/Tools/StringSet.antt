-- ===== src/Tools/StringSet.antt =====
-- tools/stringset.go: what the code relies on in its sets of strings, a container of another project.
use expert_octo_doodle.Common.{
  Bytes, equal, Bool, true, false, List, [], ◌∷◌, if◌then◌else◌, ◌≡◌, refl, arith, is_in,
}

-- `elements` are what `Iter` ranges over.
pub record StringSet : Type 1 where
  pub Carrier : Type 0
  pub empty : Carrier
  pub add : Bytes → Carrier → Carrier
  pub contains : Carrier → Bytes → Bool
  pub elements : Carrier → List Bytes
  pub contains-empty : (i : Bytes) → contains empty i ≡ false
  pub contains-add :
      (i j : Bytes) (s : Carrier)
      → contains (add i s) j ≡ (if equal i j then true else contains s j)
  pub elements-contains : (i : Bytes) (s : Carrier) → is_in (elements s) i ≡ contains s i

module _ (S : StringSet) where
  -- Adds each item of a channel.
  unfoldable pub add_all : List Bytes → S.Carrier → S.Carrier
  add_all [] s = s
  add_all (i ∷ is) s = add_all is (S.add i s)

  pub contains-add_all :
      (is : List Bytes) (s : S.Carrier) (j : Bytes)
      → S.contains (add_all is s) j ≡ (if is_in is j then true else S.contains s j)
  unfolding add_all
  contains-add_all [] s j = refl
  contains-add_all (i ∷ is) s j =
      rw (contains-add_all is (S.add i s) j, S.contains-add i j s) (ground arith)
