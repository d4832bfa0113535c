-- ===== src/Lfs/Pointer/WellFormed.antt =====
-- Well-formed pointers, and the text of the lines of their files.
use expert_octo_doodle.Common.{
  ◌<◌, ◌^◌, List, [], ◌∷◌, ◌++◌, some, true, Bytes, codes, equal_refl, split_once,
  split_once-append, Map, decimal, ◌≡◌, arith, All,
}
use expert_octo_doodle.Common.Decimal.{IsDigit}
use expert_octo_doodle.Common.TextLaws.{IsVisible}
use expert_octo_doodle.Lfs.Pointer.{Pointer, PointerExtension, latest, oid_type_sha256}
use expert_octo_doodle.Lfs.Pointer.Decode.{ok, begins_alnum, is_word, parse_oid}

-- An oid of a pointer file: 64 letters and digits, perhaps with more visible bytes behind them.
abbrev pub IsOid : Bytes → Type 0
IsOid oid = (begins_alnum 64 oid ≡ true) × All IsVisible oid

abbrev pub HasName : Bytes → Type 0
HasName [] = ⊥
HasName (c ∷ name) = (is_word c ≡ true) × All IsVisible (c ∷ name)

pub record IsExtension (e : PointerExtension) : Type 0 where
  pub name_ok : HasName e.name
  pub priority_lt : e.priority < 10
  pub oid_ok : IsOid e.oid
  pub oid_type_is : e.oid_type ≡ oid_type_sha256

-- The priorities go up.
abbrev pub Increasing : List PointerExtension → Type 0
Increasing [] = Unit
Increasing (e ∷ es) = All (λ x. e.priority < x.priority) es × Increasing es

pub record IsPointer (p : Pointer) : Type 0 where
  pub version_is : p.version ≡ latest
  pub oid_ok : IsOid p.oid
  pub oid_type_is : p.oid_type ≡ oid_type_sha256
  pub size_pos : 0 < p.size
  pub size_lt : p.size < 2 ^ 63
  pub are_extensions : All IsExtension p.extensions
  pub increasing : Increasing p.extensions

abbrev pub ext_key : PointerExtension → Bytes
ext_key e = codes "ext-" ++ (decimal e.priority ++ (b'-' ∷ e.name))

abbrev pub oid_value : Bytes → Bytes
oid_value oid = oid_type_sha256 ++ (b':' ∷ oid)

abbrev pub ext_text : PointerExtension → Bytes
ext_text e = ext_key e ++ (b' ' ∷ oid_value e.oid)

abbrev pub ext_texts : List PointerExtension → List Bytes → List Bytes
ext_texts [] more = more
ext_texts (e ∷ es) more = ext_text e ∷ ext_texts es more

abbrev pub ext_entries : List PointerExtension → Map Bytes
ext_entries [] = []
ext_entries (e ∷ es) = (ext_key e, oid_value e.oid) ∷ ext_entries es

pub Visible_of_digits : (s : Bytes) → All IsDigit s → All IsVisible s
Visible_of_digits [] h = tt
Visible_of_digits (c ∷ s) (hc, h) = (omega arith, Visible_of_digits s h)

pub split_once_oid : (oid : Bytes) → split_once b':' (oid_value oid) ≡ some (oid_type_sha256, oid)
split_once_oid oid = split_once-append b':' oid_type_sha256 oid (omega arith)

pub parse_oid-oid_value :
    (oid : Bytes) → begins_alnum 64 oid ≡ true → parse_oid (oid_value oid) ≡ ok oid
unfolding parse_oid
parse_oid-oid_value oid h =
    rw (split_once_oid oid, parse_oid) (rw (equal_refl oid_type_sha256) (rw h))
