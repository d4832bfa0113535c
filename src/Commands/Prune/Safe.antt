-- ===== src/Commands/Prune/Safe.antt =====
-- commands/command_prune.go: what a prune leaves in the storage.
use expert_octo_doodle.Common.{
  Bytes, List, Bool, true, false, ◌&&◌, ◌≡◌, refl, sym, ap, ◌∙◌, arith, Bool-cases, inl, inr, is_in,
}
use expert_octo_doodle.Commands.Prune.{FetchPruneConfig, Repository, reachable_objects, tasks}
use expert_octo_doodle.Commands.Prune.Retained.{finds, of_scan-holds, Needed, IsClean, IsClean-both}
use expert_octo_doodle.Commands.Prune.Run.{Outcome, prune, prune_command}
use expert_octo_doodle.Commands.Prune.Sent.{tasks-Needed}
use expert_octo_doodle.LocalStorage.{FileSystem, FilePath, Object}
use expert_octo_doodle.Tools.StringSet.{StringSet}
use expert_octo_doodle.Commands.Prune.Parts.{
  oids_of, finish-keeps, finish_dry, problems, is_in-problems, candidates, is_in-candidates,
  reachable_if, prune-run,
}

module _ (F : FileSystem) (S : StringSet) (repo : Repository)
    (check_remote : Bytes → List Object → List Bytes) where
  abbrev Kept : FilePath → F.Disk → Outcome × F.Disk → Type 0
  Kept q k r = F.is_there q r.1 ≡ F.is_there q k

  -- A file with the name of an object that has arrived stays.
  prune-keeps :
      (c : FetchPruneConfig) (verify dry_run : Bool) (retained : List Bytes) (q : FilePath)
      (k : F.Disk)
      → (IsClean (tasks S repo c) → is_in retained q.name ≡ true)
      → Kept q k (prune F S repo check_remote c verify dry_run retained k)
  prune-keeps c verify dry_run retained q k arrived =
      let os = candidates F S repo check_remote retained k in
      let reachable = reachable_if F S repo check_remote verify in
      prune-run F S repo check_remote (Kept q k) c verify dry_run retained k (λ o r. refl)
        (λ clean passed.
          let mine = arrived (IsClean-both (tasks S repo c) reachable clean).0 in
          let out : is_in (oids_of os) q.name ≡ false =
            rw (is_in-candidates F S repo check_remote retained k q.name, mine) (ground arith) in
          finish-keeps F dry_run (oids_of os) q k out)

  -- Whatever the flags, and however the prune ends: a file of the storage that holds an object that the
  -- repository needs is kept, if all that the tasks send arrives, in whatever order.
  pub prune_command-Needed :
      (c : FetchPruneConfig) (verify_flag no_verify_flag dry_run : Bool) (retained : List Bytes)
      (q : FilePath) (k : F.Disk)
      → ((oid : Bytes) → is_in retained oid ≡ is_in (tasks S repo c).retained oid)
      → Needed repo c q.name
      → F.is_there q
          (prune_command F S repo check_remote c verify_flag no_verify_flag dry_run retained k).1
        ≡ F.is_there q k
  unfolding prune_command
  prune_command-Needed c verify_flag no_verify_flag dry_run retained q k arrives needed =
      elim (Bool-cases (verify_flag && no_verify_flag)) [
        | inl both ↦ rw (both, prune_command)
        | inr one ↦
            rw (one, prune_command)
              (prune-keeps c _ dry_run retained q k
                (λ clean. arrives q.name ∙ tasks-Needed S repo c q.name needed clean))
      ]

  -- A dry run changes nothing on the disk.
  pub prune_dry :
      (c : FetchPruneConfig) (verify : Bool) (retained : List Bytes) (k : F.Disk)
      → (prune F S repo check_remote c verify true retained k).1 ≡ k
  prune_dry c verify retained k =
      prune-run F S repo check_remote (λ r. r.1 ≡ k) c verify true retained k (λ o r. refl)
        (λ clean passed. finish_dry F (oids_of (candidates F S repo check_remote retained k)) k)

  reachable-holds :
      (oid : Bytes)
      → finds repo.scan_all oid ≡ true
      → is_in (reachable_objects S repo).retained oid ≡ true
  unfolding reachable_objects
  reachable-holds oid h = of_scan-holds repo.scan_all oid h

  -- With `verify`, a file that holds an object that is reachable is kept if the remote lacks the object,
  -- whatever the tasks retain.
  pub prune-verified :
      (c : FetchPruneConfig) (dry_run : Bool) (retained : List Bytes) (q : FilePath) (k : F.Disk)
      → finds repo.scan_all q.name ≡ true
      → ((os : List Object) → is_in (check_remote c.prune_remote_name os) q.name ≡ false)
      → F.is_there q (prune F S repo check_remote c true dry_run retained k).1 ≡ F.is_there q k
  prune-verified c dry_run retained q k reachable lacking =
      let os = candidates F S repo check_remote retained k in
      let found = reachable_objects S repo in
      let listed : is_in (problems F S repo check_remote c found.retained os) q.name
          ≡ is_in (oids_of os) q.name =
        rw
          (
            is_in-problems F S repo check_remote c found.retained os q.name,
            lacking os,
            reachable-holds q.name reachable,
          )
          (ground arith) in
      prune-run F S repo check_remote (Kept q k) c true dry_run retained k (λ o r. refl)
        (λ clean passed.
          finish-keeps F dry_run (oids_of os) q k
            (sym listed ∙ ap (λ is. is_in is q.name) (passed refl)))
