-- ===== src/Commands/Fetch.antt =====
-- commands/command_fetch.go: which objects a fetch downloads, and which pointers it reports. The filter by
-- names, the objects that exist locally (behind the attempt to link them from a reference repository) and
-- the oids that the download queue tells its watcher are parameters.
pub mod Once
use expert_octo_doodle.Common.{
  ℕ, ◌+◌, ◌%◌, ◌^◌, Bytes, List, [], ◌∷◌, ◌++◌, Option, none, some, Bool, true, false, not,
  if◌then◌else◌, is_in, Map, lookup, insert,
}
use expert_octo_doodle.Lfs.Scanner.{WrappedPointer}

abbrev pub oid_of : WrappedPointer → Bytes
oid_of p = p.pointer.oid

-- What `readyAndMissingPointers` returns; the size is the 64 bits of an `int64`.
pub record Selection : Type 0 where
  pub ready : List WrappedPointer
  pub missing : List WrappedPointer
  pub size : ℕ

module _ (allows : Bytes → Bool) (exists_of_size : Bytes → ℕ → Bool) where
  -- The loop, with the oids that were seen.
  unfoldable pub select_pointers : List Bytes → List WrappedPointer → Selection
  select_pointers seen [] = record { ready = []; missing = []; size = 0 }
  select_pointers seen (p ∷ ps) =
      let skipped = select_pointers seen ps in
      let rest = select_pointers (oid_of p ∷ seen) ps in
      if not (allows p.name)
      then skipped
      else if is_in seen (oid_of p)
      then skipped
      else if exists_of_size (oid_of p) p.size
      then record rest { ready = p ∷ rest.ready }
      else record rest { missing = p ∷ rest.missing; size = (rest.size + p.size) % 2 ^ 64 }

  unfoldable pub ready_and_missing_pointers : List WrappedPointer → Selection
  unfolding select_pointers
  ready_and_missing_pointers ps = select_pointers [] ps

-- `oidToPointers`
unfoldable pub oid_to_pointers :
    List WrappedPointer → Map (List WrappedPointer) → Map (List WrappedPointer)
oid_to_pointers [] m = m
oid_to_pointers (p ∷ ps) m =
    let plist : List WrappedPointer = elim (lookup (oid_of p) m) [ none ↦ [] | some l ↦ l ] in
    oid_to_pointers ps (insert (oid_of p) (plist ++ p ∷ []) m)

-- The loop over what the watcher is told.
unfoldable pub report_completed : Map (List WrappedPointer) → List Bytes → List WrappedPointer
report_completed m [] = []
report_completed m (oid ∷ oids) = elim (lookup oid m) [
  | none ↦ report_completed m oids
  | some plist ↦ plist ++ report_completed m oids
]

-- What `fetchAndReportToChan` sends to `out`, where the watcher is told `completed`.
unfoldable pub fetch_and_report :
    (Bytes → Bool) → (Bytes → ℕ → Bool) → List WrappedPointer → List Bytes → List WrappedPointer
unfolding ready_and_missing_pointers oid_to_pointers report_completed
fetch_and_report allows exists_of_size ps completed =
    let s = ready_and_missing_pointers allows exists_of_size ps in
    s.ready ++ report_completed (oid_to_pointers s.missing []) completed
