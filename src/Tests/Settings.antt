-- ===== src/Tests/Settings.antt =====
-- Git's configuration and the batcher, on small inputs.
use expert_octo_doodle.Common.{
  ℕ, List, [], ◌∷◌, true, false, Bytes, codes, equal, ◌≡◌, refl, arith, inl, inr,
}
use mathlib.Core.List.{Perm}
use expert_octo_doodle.Config.Extensions.{sort_extensions, duplicate_priority}
use expert_octo_doodle.Config.Extensions.Ints.{IsAscending}
use expert_octo_doodle.Config.Extensions.Sorted.{
  AreDistinct, priorities_of, values, sort_extensions-IsAscending,
}
use expert_octo_doodle.Config.GitFetcher.{
  Extension, no_settings, read_lines, split, extension_key, remote_key, is_hidden_remote,
  is_access_key, unsafe_in,
}
use expert_octo_doodle.Config.GitFetcher.Safe.{is_permitted, commands, read_lines-commands}
use expert_octo_doodle.Lfs.Batcher.{Event, item, flushed, closed, accept_input, new_batcher}
use expert_octo_doodle.Lfs.Batcher.Order.{Holds, items, accept_input-new_batcher}

abbrev file_lines : List Bytes
file_lines =
    codes "lfs.batch=false" ∷ codes "lfs.extension.evil.clean=rm" ∷ codes "lfs.url=http://x" ∷ []

abbrev own_lines : List Bytes
own_lines = codes "lfs.URL=http://y" ∷ codes "core.bare=true" ∷ []

batch_not_permitted : is_permitted (codes "lfs.batch") ≡ false
unfolding split equal unsafe_in extension_key remote_key is_access_key
batch_not_permitted = refl

-- A remote with a dot in its name passes the test of three parts.
dotted_remote_permitted : is_permitted (codes "remote.my.host.url") ≡ true
unfolding split equal unsafe_in extension_key remote_key is_hidden_remote
dotted_remote_permitted = refl

read_lines-commands_example :
    commands (codes "evil") (read_lines true file_lines no_settings).extensions
    ≡ commands (codes "evil") no_settings.extensions
read_lines-commands_example = read_lines-commands file_lines (codes "evil") no_settings

abbrev events : List (Event ℕ)
events = item 1 ∷ item 2 ∷ item 3 ∷ flushed ∷ item 4 ∷ closed ∷ []

four_in_batches :
    (accept_input events (new_batcher 2)).ready ≡ (1 ∷ 2 ∷ []) ∷ (3 ∷ []) ∷ (4 ∷ []) ∷ []
unfolding accept_input
four_in_batches = refl

accept_input-new_batcher_example : Holds (items events) (accept_input events (new_batcher 2))
accept_input-new_batcher_example = accept_input-new_batcher 2 events (omega arith)

-- Two extensions, the last first.
abbrev two_extensions : List (Bytes × Extension)
two_extensions =
    (
      codes "b",
      record { name = codes "b"; clean = codes "rot13"; smudge = codes "rot13"; priority = 1 },
    )
    ∷ (
      codes "a",
      record { name = codes "a"; clean = codes "gzip"; smudge = codes "gunzip"; priority = 0 },
    )
    ∷ []

sort_extensions-IsAscending_example :
    ((es : List Extension)
      → sort_extensions two_extensions ≡ inr es
      → AreDistinct (priorities_of (values two_extensions))
        × IsAscending (priorities_of es)
        × Perm es (values two_extensions))
    × (AreDistinct (priorities_of (values two_extensions))
        → (es : List Extension) × (sort_extensions two_extensions ≡ inr es))
sort_extensions-IsAscending_example = sort_extensions-IsAscending two_extensions

abbrev clashing : List (Bytes × Extension)
clashing =
    (codes "c", record { name = codes "c"; clean = []; smudge = []; priority = 1 }) ∷ two_extensions

clash_reported : sort_extensions clashing ≡ inl (duplicate_priority 1 (codes "b"))
unfolding sort_extensions
clash_reported = refl
