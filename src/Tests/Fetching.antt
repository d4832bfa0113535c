-- ===== src/Tests/Fetching.antt =====
-- A fetch of three pointers, of which two have the same object.
use expert_octo_doodle.Common.{
  ℕ, Bytes, codes, equal, List, [], ◌∷◌, Bool, true, String, ◌≡◌, refl, is_in, lookup, insert,
}
use expert_octo_doodle.Commands.Fetch.{
  select_pointers, ready_and_missing_pointers, oid_to_pointers, report_completed, fetch_and_report,
}
use expert_octo_doodle.Commands.Fetch.Once.{times, oids_of, allowed, fetch_and_report-is_in}
use expert_octo_doodle.Lfs.Pointer.{new_pointer}
use expert_octo_doodle.Lfs.Scanner.{WrappedPointer}

abbrev pointer_at : String → String → WrappedPointer
pointer_at name oid = record {
  sha1 = [];
  name = codes name;
  src_name = [];
  size = 5;
  status = [];
  pointer = new_pointer (codes oid) 5 [];
}

abbrev three : List WrappedPointer
three = pointer_at "a.bin" "0a" ∷ pointer_at "b.bin" "0a" ∷ pointer_at "c.bin" "0c" ∷ []

abbrev any_name : Bytes → Bool
any_name name = true

abbrev only_c : Bytes → ℕ → Bool
only_c oid size = equal oid (codes "0c")

-- The object is fetched, and the second file that has it is not reported.
second_file_lost :
    fetch_and_report any_name only_c three (codes "0a" ∷ [])
    ≡ pointer_at "c.bin" "0c" ∷ pointer_at "a.bin" "0a" ∷ []
unfolding fetch_and_report ready_and_missing_pointers select_pointers oid_to_pointers
    report_completed lookup insert equal
second_file_lost = refl

told_once :
    (k : Bytes)
    → times k (codes "0a" ∷ [])
      ≡ times k (oids_of (ready_and_missing_pointers any_name only_c three).missing)
unfolding ready_and_missing_pointers select_pointers equal
told_once k = refl

fetch_and_report-is_in_example :
    is_in (oids_of (fetch_and_report any_name only_c three (codes "0a" ∷ []))) (codes "0a")
    ≡ is_in (oids_of (allowed any_name three)) (codes "0a")
fetch_and_report-is_in_example =
    fetch_and_report-is_in any_name only_c three (codes "0a" ∷ []) told_once (codes "0a")
