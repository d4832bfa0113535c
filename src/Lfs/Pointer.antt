-- ===== src/Lfs/Pointer.antt =====
-- lfs/pointer.go: pointers and their text. `Decode` has the parser.
pub mod Decode
pub mod WellFormed
pub mod ExtensionLines
pub mod Extensions
pub mod Layout
pub mod RoundTrip
pub mod Sorted
pub mod Sound
pub mod Panics
use expert_octo_doodle.Common.{
  ℕ, zero, suc, ◌+◌, List, [], ◌∷◌, ◌++◌, Option, none, some, Bool, true, false, not, ◌&&◌, ◌||◌,
  if◌then◌else◌, ltb, leb, ◌==◌, Bytes, codes, equal, split_once, Map, lookup, insert, contains,
  has_prefix, trim_space, scan_lines, take, decimal, parse_int, ℤ, pos, negsuc,
}
use expert_octo_doodle.Errors.{
  Fault, plain, formatted, is_error, is_bad_pointer_key, standardize_bad_pointer_error,
  new_not_a_pointer_error, new_bad_pointer_key_error,
}

abbrev pub latest : Bytes
latest = codes "https://git-lfs.github.com/spec/v1"

abbrev pub v1_aliases : List Bytes
v1_aliases =
    codes "http://git-media.io/v/2" ∷ codes "https://hawser.github.com/spec/v1" ∷ latest ∷ []

abbrev pub oid_type_sha256 : Bytes
oid_type_sha256 = codes "sha256"

-- `Priority` and `Size` are never negative: every place that reads one refuses that.
pub record PointerExtension : Type 0 where
  pub name : Bytes
  pub priority : ℕ
  pub oid : Bytes
  pub oid_type : Bytes

pub record Pointer : Type 0 where
  pub version : Bytes
  pub oid : Bytes
  pub size : ℕ
  pub oid_type : Bytes
  pub extensions : List PointerExtension

abbrev pub new_pointer : Bytes → ℕ → List PointerExtension → Pointer
new_pointer oid size exts = record {
  version = latest;
  oid = oid;
  size = size;
  oid_type = oid_type_sha256;
  extensions = exts;
}

abbrev pub new_pointer_extension : Bytes → ℕ → Bytes → PointerExtension
new_pointer_extension name priority oid = record {
  name = name;
  priority = priority;
  oid = oid;
  oid_type = oid_type_sha256;
}

-- The line of an extension, with its newline.
abbrev pub extension_line : PointerExtension → Bytes
extension_line ext =
    codes "ext-"
    ++ (decimal ext.priority
        ++ (b'-' ∷ ext.name ++ (b' ' ∷ ext.oid_type ++ (b':' ∷ ext.oid ++ b'\n' ∷ []))))

abbrev pub extension_lines : List PointerExtension → Bytes
extension_lines [] = []
extension_lines (ext ∷ exts) = extension_line ext ++ extension_lines exts

-- `Encoded`
unfoldable pub encoded : Pointer → Bytes
encoded p =
    if p.size == 0
    then []
    else codes "version "
      ++ (latest
          ++ (b'\n' ∷ extension_lines p.extensions
              ++ (codes "oid "
                  ++ (p.oid_type
                      ++ (b':' ∷ p.oid
                          ++ (b'\n' ∷ codes "size " ++ (decimal p.size ++ b'\n' ∷ [])))))))
