-- ===== src/Transfer/Manifest.antt =====
-- transfer/manifest.go: the adapters that can be made, by name and direction. A function that makes an
-- adapter never gives nil. The names of a map come in the order of their first registration.
pub mod Names
use expert_octo_doodle.Common.{
  List, [], ◌∷◌, Option, none, some, Bool, true, false, if◌then◌else◌, Bytes, codes, Map, lookup,
  insert,
}

pub data Direction : Type 0 where
  upload download : Direction

abbrev pub basic_adapter_name : Bytes
basic_adapter_name = codes "basic"

module _ (A : Type 0) where
  abbrev pub NewAdapterFunc : Type 0
  NewAdapterFunc = Bytes → Direction → A

  pub record Manifest : Type 0 where
    pub basic_transfers_only : Bool
    pub download_adapter_funcs : Map NewAdapterFunc
    pub upload_adapter_funcs : Map NewAdapterFunc

-- `for n, _ := range adapters`
abbrev pub keys : {V : Type 0} → Map V → List Bytes
keys [] = []
keys (kv ∷ m) = kv.0 ∷ keys m

module _ {A : Type 0} where
  abbrev pub new_manifest : Manifest A
  new_manifest = record {
    basic_transfers_only = false;
    download_adapter_funcs = [];
    upload_adapter_funcs = [];
  }

  abbrev pub funcs : Direction → Manifest A → Map (NewAdapterFunc A)
  funcs upload m = m.upload_adapter_funcs
  funcs download m = m.download_adapter_funcs

  unfoldable pub get_adapter_names : Direction → Manifest A → List Bytes
  get_adapter_names dir m =
      if m.basic_transfers_only then basic_adapter_name ∷ [] else keys (funcs dir m)

  -- `RegisterNewTransferAdapterFunc`
  unfoldable pub register : Bytes → Direction → NewAdapterFunc A → Manifest A → Manifest A
  register name upload f m = record m {
    upload_adapter_funcs = insert name f m.upload_adapter_funcs;
  }
  register name download f m = record m {
    download_adapter_funcs = insert name f m.download_adapter_funcs;
  }

  unfoldable pub new_adapter : Bytes → Direction → Manifest A → Option A
  new_adapter name dir m = elim (lookup name (funcs dir m)) [
    | none ↦ none
    | some f ↦ some (f name dir)
  ]

  abbrev or_basic : Option A → Direction → Manifest A → Option A
  or_basic (some a) dir m = some a
  or_basic none dir m = new_adapter basic_adapter_name dir m

  unfoldable pub new_adapter_or_default : Bytes → Direction → Manifest A → Option A
  unfolding new_adapter
  new_adapter_or_default [] dir m = or_basic (new_adapter basic_adapter_name dir m) dir m
  new_adapter_or_default (c ∷ name) dir m = or_basic (new_adapter (c ∷ name) dir m) dir m
