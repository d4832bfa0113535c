-- ===== src/Tests/Adapters.antt =====
-- A manifest with two adapters.
use expert_octo_doodle.Common.{ℕ, none, codes, equal, lookup, insert, ◌≢◌}
use expert_octo_doodle.Transfer.Manifest.{
  upload, basic_adapter_name, Manifest, new_manifest, register, new_adapter,
}

abbrev two_adapters : Manifest ℕ
two_adapters =
    register (codes "tus") upload (λ name dir. 2)
      (register basic_adapter_name upload (λ name dir. 1) new_manifest)

has_basic : new_adapter basic_adapter_name upload two_adapters ≢ none
unfolding new_adapter register lookup insert equal
has_basic = λ p. cc
