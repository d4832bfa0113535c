-- ===== src/Lfs/Hook/Kept.antt =====
-- What happens to a hook that is there already: one of the user's is kept, one of git-lfs can be replaced
-- and removed.
use expert_octo_doodle.Common.{
  ◌<◌, ◌≤◌, ◌++◌, none, some, Bool, true, false, not, ◌&&◌, Bytes, codes, equal_refl, trim_space,
  take-eq_self, length, length-append, ◌≡◌, ◌≢◌, refl, sym, ap, ◌∙◌, arith, Bool-cases,
  Option-cases, inl, inr,
}
use expert_octo_doodle.Lfs.Hook.{
  Disk, Hook, HookError, content, already_exists, path_in, read_limit, shown, matches, write,
  matches_current, upgrade, install_in, install, uninstall,
}

-- The text of a hook that is read back from its file as it is.
pub record IsHook (h : Hook) : Type 0 where
  pub trimmed : trim_space (h.contents ++ codes "\n") ≡ h.contents
  pub fits : length h.contents < read_limit

matches-written : (h : Hook) → IsHook h → matches h (shown (h.contents ++ codes "\n")) ≡ true
unfolding matches shown
matches-written h ok =
    let fits : length (h.contents ++ codes "\n") ≤ read_limit =
      omega (arith, ok.fits, length-append h.contents (codes "\n")) in
    rw (take-eq_self read_limit (h.contents ++ codes "\n") fits, ok.trimmed, equal_refl h.contents)

module _ (disk : Disk) (folder : Bytes) (h : Hook) where
  open disk use {State, mkdir_all, exists, read, write_file, remove_all}

  -- What is in the file of the hook.
  abbrev pub Reads : Bytes → State → Type 0
  Reads text s = read (path_in folder h) s ≡ content text

  matches_current-foreign :
      (text : Bytes) (s : State)
      → Reads text s
      → matches h (shown text) ≡ false
      → matches_current disk folder h s ≡ some (already_exists h.type (shown text))
  unfolding matches_current
  matches_current-foreign text s reads foreign = rw (reads, matches_current) (rw foreign)

  matches_current-written :
      (text : Bytes) (s : State)
      → Reads text s
      → matches h (shown text) ≡ true
      → matches_current disk folder h s ≡ none
  unfolding matches_current
  matches_current-written text s reads own = rw (reads, matches_current) (rw own)

  upgrade-foreign :
      (text : Bytes) (s : State)
      → Reads text s
      → matches h (shown text) ≡ false
      → upgrade disk folder h s ≡ (some (already_exists h.type (shown text)), s)
  unfolding upgrade
  upgrade-foreign text s reads foreign = rw (matches_current-foreign text s reads foreign, upgrade)

  install-failed :
      (force : Bool) (s : State) (e : HookError)
      → (mkdir_all folder s).0 ≡ some e
      → install disk folder force h s ≡ (some e, (mkdir_all folder s).1)
  unfolding install
  install-failed force s e failed = rw (failed, install)

  install-made :
      (force : Bool) (s : State)
      → (mkdir_all folder s).0 ≡ none
      → install disk folder force h s ≡ install_in disk folder force h (mkdir_all folder s).1
  unfolding install
  install-made force s made = rw (made, install)

  -- A file whose first 1024 bytes, without white space at their ends, are neither empty nor the text of the hook nor one of its
  -- earlier texts stays as it is: to install the hook without force or to remove it gives an error. Of a longer file
  -- only these bytes count.
  pub hook-kept :
      (text : Bytes) (s : State)
      → exists (path_in folder h) s ≡ true
      → Reads text s
      → matches h (shown text) ≡ false
      → ((install disk folder false h s).0 ≢ none)
        × Reads text (install disk folder false h s).1
        × ((uninstall disk folder true h s) ≡ (some (already_exists h.type (shown text)), s))
  unfolding uninstall
  hook-kept text s there reads foreign =
      let still : Reads text (mkdir_all folder s).1 = disk.read-mkdir_all folder h.type s ∙ reads in
      let there_still = disk.exists-mkdir_all folder h.type s ∙ there in
      elim (Option-cases (mkdir_all folder s).0) [
        | inr (e, failed) ↦
            rw (install-failed false s e failed)
              (λ done. cc, still, rw (matches_current-foreign text s reads foreign, uninstall))
        | inl made ↦
            rw
              (
                install-made false s made,
                there_still,
                upgrade-foreign text (mkdir_all folder s).1 still foreign,
              )
              (λ done. cc, still, rw (matches_current-foreign text s reads foreign, uninstall))
      ]

  write-written :
      (s t : State) → write disk folder h s ≡ (none, t) → Reads (h.contents ++ codes "\n") t
  unfolding write
  write-written s t done =
      disk.read-write_file (path_in folder h) (h.contents ++ codes "\n") s t done

  upgrade-written :
      (s t : State) → upgrade disk folder h s ≡ (none, t) → Reads (h.contents ++ codes "\n") t
  unfolding upgrade
  upgrade-written s t done = elim (Option-cases (matches_current disk folder h s)) [
    | inr (e, stop) ↦ cc (stop, done)
    | inl free ↦ write-written s t (rw (free, upgrade) at done)
  ]

  install_in-written :
      (force : Bool) (s t : State)
      → install_in disk folder force h s ≡ (none, t)
      → Reads (h.contents ++ codes "\n") t
  install_in-written force s t done = elim (Bool-cases (exists (path_in folder h) s && not force)) [
    | inl there ↦ upgrade-written s t (rw there at done)
    | inr free ↦ write-written s t (rw free at done)
  ]

  install-written :
      (force : Bool) (s t : State)
      → install disk folder force h s ≡ (none, t)
      → Reads (h.contents ++ codes "\n") t
  install-written force s t done = elim (Option-cases (mkdir_all folder s).0) [
    | inr (e, failed) ↦ cc (ap (λ r. r.0) (sym (install-failed force s e failed) ∙ done))
    | inl made ↦
        install_in-written force (mkdir_all folder s).1 t (sym (install-made force s made) ∙ done)
  ]

  -- A hook whose text is read back as it is, and that was installed, with force or without it, is gone after it is removed, or there is an error of
  -- the file system.
  pub uninstall-install :
      (force : Bool) (s t u : State)
      → IsHook h
      → install disk folder force h s ≡ (none, t)
      → (uninstall disk folder true h t ≡ remove_all (path_in folder h) t)
        × (uninstall disk folder true h t ≡ (none, u) → exists (path_in folder h) u ≡ false)
  unfolding uninstall
  uninstall-install force s t u ok done =
      let current : matches_current disk folder h t ≡ none =
        matches_current-written (h.contents ++ codes "\n") t (install-written force s t done)
          (matches-written h ok) in
      rw (current, uninstall) (refl, λ gone. disk.exists-remove_all (path_in folder h) t u gone)
