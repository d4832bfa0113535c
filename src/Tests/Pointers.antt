-- ===== src/Tests/Pointers.antt =====
-- Pointer files on small inputs.
use expert_octo_doodle.Common.{
  ◌≡◌, ◌≤◌, refl, arith, List, [], ◌∷◌, codes, decimal, Bytes, trim_space, length,
}
use expert_octo_doodle.Lfs.Pointer.{
  Pointer, PointerExtension, new_pointer, new_pointer_extension, encoded,
}
use expert_octo_doodle.Lfs.Pointer.Decode.{ok, decode_pointer, begins_alnum}
use expert_octo_doodle.Lfs.Pointer.WellFormed.{IsPointer, IsOid}
use expert_octo_doodle.Common.{trim_space}
use expert_octo_doodle.Lfs.Pointer.Sorted.{decode_kv-Increasing}
use expert_octo_doodle.Lfs.Pointer.WellFormed.{Increasing}
use expert_octo_doodle.Lfs.Pointer.RoundTrip.{decode-encoded, decode_pointer-encoded}

abbrev an_oid : Bytes
an_oid = codes "4d7a214614ab2935c943f9e0ff69d22eadbb8f32b1258daaa5e2ca24d17e2393"

abbrev two_extensions : List PointerExtension
two_extensions =
    new_pointer_extension (codes "foo") 0 an_oid ∷ new_pointer_extension (codes "bar") 1 an_oid ∷ []

abbrev a_pointer : Pointer
a_pointer = new_pointer an_oid 12345 two_extensions

an_oid-IsOid : IsOid an_oid
an_oid-IsOid = ((unfold begins_alnum in refl), omega arith)

a_pointer-IsPointer : IsPointer a_pointer
a_pointer-IsPointer = record {
  version_is = refl;
  oid_ok = an_oid-IsOid;
  oid_type_is = refl;
  size_pos = omega arith;
  size_lt = omega arith;
  are_extensions = (
    record {
      name_ok = (refl, omega arith);
      priority_lt = omega arith;
      oid_ok = an_oid-IsOid;
      oid_type_is = refl;
    },
    (
      record {
        name_ok = (refl, omega arith);
        priority_lt = omega arith;
        oid_ok = an_oid-IsOid;
        oid_type_is = refl;
      },
      tt,
    ),
  );
  increasing = ((omega arith, tt), (tt, tt));
}

small_encoded : length (encoded a_pointer) ≤ 1024
small_encoded = unfold encoded decimal in omega arith

decode_pointer-encoded_example : decode_pointer (encoded a_pointer) ≡ ok a_pointer
decode_pointer-encoded_example = decode_pointer-encoded a_pointer a_pointer-IsPointer small_encoded

decode_kv-Increasing_example : Increasing a_pointer.extensions
decode_kv-Increasing_example =
    decode_kv-Increasing (trim_space (encoded a_pointer)) a_pointer
      (decode-encoded a_pointer a_pointer-IsPointer)
