-- ===== src/Tests/Repositories.antt =====
-- References, versions of Git and uploads, on small inputs.
use expert_octo_doodle.Common.{
  ℕ, ◌≤◌, ◌%◌, ◌^◌, List, [], ◌∷◌, Option, none, some, true, false, Bytes, String, Bool, codes,
  equal, is_in, length, ◌≡◌, ◌≢◌, ◌↔◌, refl, sym, ap, ◌∙◌, arith,
}
use expert_octo_doodle.Commands.Fetch.Once.{times, oids_of}
use expert_octo_doodle.Commands.Uploader.{
  exited, prepare_upload, upload, sort_pointers, check_missing, skip_or_add, add_uploadables,
}
use expert_octo_doodle.Commands.Uploader.Counts.{sizes}
use expert_octo_doodle.Commands.Uploader.Uploaded.{prepare_upload-once, upload-covers}
use expert_octo_doodle.Git.Refs.{
  local_branch, remote_branch, branch_line, parse_ref_to_type_and_name, recent_branches, is_wanted,
}
use expert_octo_doodle.Git.Refs.Names.{Names, parse_ref_lem}
use expert_octo_doodle.Git.Refs.Recent.{kept, Descending, HasDate, recent_branches-sorted}
use expert_octo_doodle.Git.Version.{is_version_at_least}
use expert_octo_doodle.Git.Version.Ordered.{version_text, is_version_at_least_lem}
use expert_octo_doodle.Lfs.Pointer.{new_pointer}
use expert_octo_doodle.Lfs.Scanner.{WrappedPointer}
use expert_octo_doodle.Progress.{skip}
use expert_octo_doodle.Tools.StringSet.{add_all}
use expert_octo_doodle.Tests.Storage.{list_set}

parse_ref_lem_example :
    (parse_ref_to_type_and_name (codes "refs/remotes/tags/v1") ≡ (remote_branch, codes "tags/v1"))
    ↔ Names remote_branch (codes "refs/remotes/tags/v1") (codes "tags/v1")
parse_ref_lem_example = parse_ref_lem (codes "refs/remotes/tags/v1") remote_branch (codes "tags/v1")

is_version_at_least_lem_example :
    is_version_at_least
      (version_text (codes "git version ") 2 11 0 (codes ".windows.1"))
      (version_text [] 2 9 0 [])
    ≡ true
is_version_at_least_lem_example =
    is_version_at_least_lem (codes "git version ") [] 2 11 0 2 9 0 (codes ".windows.1") []
      (
        refl,
        (refl, (refl, (refl, (refl, (refl, (refl, (refl, (refl, (refl, (refl, (refl, tt))))))))))),
      )
      tt refl tt (omega arith)

abbrev new_line : Bytes
new_line =
    codes "refs/heads/master f03686b324b29ff480591745dbfbbfa5e5ac1bd5 2015-08-19 16:50:37 +0100"

abbrev old_line : Bytes
old_line = codes "refs/heads/old ad3b29b773e46ad6870fdf08796c33d97190fe93 2015-08-03 16:50:37 +0100"

-- The tens of the day of a month.
abbrev day_of : Bytes → Option ℕ
day_of (y ∷ e ∷ a ∷ r ∷ m ∷ o ∷ n ∷ t ∷ d ∷ c ∷ s) = some d
day_of _ = none

new_line_read :
    branch_line new_line
    ≡ some (
      codes "refs/heads/master",
      codes "f03686b324b29ff480591745dbfbbfa5e5ac1bd5",
      codes "2015-08-19 16:50:37 +0100",
    )
unfolding branch_line
new_line_read = refl

old_line_read :
    branch_line old_line
    ≡ some (
      codes "refs/heads/old",
      codes "ad3b29b773e46ad6870fdf08796c33d97190fe93",
      codes "2015-08-03 16:50:37 +0100",
    )
unfolding branch_line
old_line_read = refl

-- The date of a line that has been read.
read_date :
    (line : Bytes) (g : Bytes × Bytes × Bytes) (t : ℕ)
    → branch_line line ≡ some g
    → day_of g.2 ≡ some t
    → HasDate day_of b'1' false [] line t
read_date line g t read date h same =
    ap (λ o. elim o [ some k ↦ day_of k.2 | none ↦ none ]) (sym same ∙ read) ∙ date

falling : Descending day_of b'1' false [] 100 (new_line ∷ old_line ∷ [])
falling = (
  b'1',
  omega arith,
  read_date new_line
      (
        codes "refs/heads/master",
        codes "f03686b324b29ff480591745dbfbbfa5e5ac1bd5",
        codes "2015-08-19 16:50:37 +0100",
      )
      b'1' new_line_read refl,
  (
    b'0',
    omega arith,
    read_date old_line
        (
          codes "refs/heads/old",
          codes "ad3b29b773e46ad6870fdf08796c33d97190fe93",
          codes "2015-08-03 16:50:37 +0100",
        )
        b'0' old_line_read refl,
    tt,
  ),
)

recent_branches-sorted_example :
    recent_branches day_of b'1' false [] (new_line ∷ old_line ∷ [])
    ≡ record { refs = kept day_of b'1' false [] (new_line ∷ old_line ∷ []); bad_date = false }
recent_branches-sorted_example =
    recent_branches-sorted day_of b'1' false [] 100 (new_line ∷ old_line ∷ []) falling

one_recent :
    kept day_of b'1' false [] (new_line ∷ old_line ∷ [])
    ≡ record {
      name = codes "master";
      type = local_branch;
      sha = codes "f03686b324b29ff480591745dbfbbfa5e5ac1bd5";
    }
      ∷ []
unfolding branch_line is_wanted parse_ref_to_type_and_name
one_recent = refl

abbrev pointer_at : String → String → WrappedPointer
pointer_at name oid = record {
  sha1 = [];
  name = codes name;
  src_name = [];
  size = 5;
  status = [];
  pointer = new_pointer (codes oid) 5 [];
}

-- Two files of one object that is here, and one that only the server has.
abbrev pushed : List WrappedPointer
pushed = pointer_at "a.bin" "0a" ∷ pointer_at "b.bin" "0a" ∷ pointer_at "c.bin" "0c" ∷ []

abbrev is_here : Bytes → ℕ → Bool
is_here oid size = equal oid (codes "0a")

abbrev server_has : List WrappedPointer → List Bytes
server_has missing = oids_of missing

prepare_upload-once_example :
    let r = prepare_upload list_set is_here server_has [] pushed in
    (times (codes "0a") (oids_of r.2) ≤ 1)
    × (is_in (oids_of pushed) (codes "0a") ≡ true
        → list_set.contains r.0 (codes "0a") ≡ false
        → times (codes "0a") (oids_of r.2) ≡ 1)
    × (list_set.contains [] (codes "0a") ≡ true → times (codes "0a") (oids_of r.2) ≡ 0)
    × (r.1.estimated_files ≡ length r.2 % 2 ^ 32)
    × (r.1.estimated_bytes ≡ sizes r.2 % 2 ^ 64)
prepare_upload-once_example = prepare_upload-once list_set is_here server_has [] pushed (codes "0a")

not_exited :
    (e : Bytes) → (upload list_set is_here server_has (λ p. none) [] [] pushed).0 ≢ exited e
unfolding upload prepare_upload sort_pointers check_missing skip_or_add add_uploadables add_all
    equal
not_exited e h = cc

upload-covers_example :
    let r = upload list_set is_here server_has (λ p. none) [] [] pushed in
    (r.2.added ≡ (prepare_upload list_set is_here server_has [] pushed).2)
    × ((k : Bytes) → is_in (oids_of pushed) k ≡ true → list_set.contains r.1 k ≡ true)
upload-covers_example =
    upload-covers list_set is_here server_has [] pushed (λ p. none) [] not_exited

one_to_upload :
    (prepare_upload list_set is_here server_has [] pushed).2 ≡ pointer_at "a.bin" "0a" ∷ []
unfolding prepare_upload sort_pointers check_missing skip_or_add add_all skip equal
one_to_upload = refl
