-- ===== src/Lfs/Scanner/Refs/Whole.antt =====
-- lfs/scanner.go: the scan of refs finds the pointers among the small blobs that git lists.
use expert_octo_doodle.Common.{List, [], map, Bytes, Map, ◌≡◌}
use expert_octo_doodle.Lfs.Scanner.CatFile.Objects.{info_line, printed}
use expert_octo_doodle.Lfs.Scanner.Lines.{unlines}
use expert_octo_doodle.Lfs.Scanner.Refs.Names.{rev_line}
use expert_octo_doodle.Lfs.Scanner.Refs.Pipeline.{Stored, to_git, small_blobs}

abbrev pub shas_of : List Stored → List Bytes
shas_of os = map (λ o. o.sha1) os

abbrev no_names : Map Bytes
no_names = []

-- What git prints of objects: a line of rev-list for each, the line of `cat-file --batch-check` for each
-- name of a list, and the objects of a list of names.
pub record Prints (os : List Stored) (stdout : Bytes) (check batch : List Bytes → Bytes)
    : Type 0 where
  pub listed : stdout ≡ unlines (map rev_line os)
  pub checked : check (shas_of os) ≡ unlines (map (λ o. info_line (to_git o)) os)
  pub shown : batch (shas_of (small_blobs os)) ≡ printed (map to_git (small_blobs os))
