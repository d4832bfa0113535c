-- ===== src/LocalStorage.antt =====
-- localstorage/localstorage.go and localstorage/scan.go: the objects under the storage directory. What
-- the operating system does with the files is a parameter.
pub mod Scanned
use native.Mathlib.Omega.{arith}
use expert_octo_doodle.Common.{
  ℕ, ◌≤◌, Bytes, List, [], ◌∷◌, Option, none, some, Bool, true, false, ◌&&◌, if◌then◌else◌, ltb,
  leb, length, take, drop, ◌≡◌, ◌≢◌,
}
use expert_octo_doodle.Errors.{Fault}
use expert_octo_doodle.Lfs.Pointer.Decode.{begins_alnum}

-- A path below the root of the storage: the directories and the name of the file.
pub record FilePath : Type 0 where
  pub dir : List Bytes
  pub name : Bytes

pub record StoredFile : Type 0 where
  pub path : FilePath
  pub size : ℕ

-- `Object`
pub record Object : Type 0 where
  pub oid : Bytes
  pub size : ℕ

-- The calls of the operating system. `walk` are the files that `Readdir` finds in the tree, and `is_there`
-- tells whether a path names a file. `MkdirAll` changes no file; `Remove` changes no other, and removes
-- this one unless it gives an error.
pub record FileSystem : Type 1 where
  pub Disk : Type 0
  pub walk : Disk → List StoredFile
  pub is_there : FilePath → Disk → Bool
  pub make_dirs : List Bytes → Disk → Option Fault × Disk
  pub remove : FilePath → Disk → Option Fault × Disk
  pub there-make_dirs :
      (dir : List Bytes) (p : FilePath) (k : Disk) → is_there p (make_dirs dir k).1 ≡ is_there p k
  pub there-remove : (p q : FilePath) (k : Disk) → p ≢ q → is_there q (remove p k).1 ≡ is_there q k
  pub gone-remove :
      (p : FilePath) (k : Disk) → (remove p k).0 ≡ none → is_there p (remove p k).1 ≡ false

-- `oidRE.MatchString`, whose pattern is `\A[[:alnum:]]{64}`.
unfoldable pub matches_oid : Bytes → Bool
unfolding begins_alnum
matches_oid s = begins_alnum 64 s

-- `scanObjects`
unfoldable pub scan_objects : List StoredFile → List Object
scan_objects [] = []
scan_objects (f ∷ fs) =
    let rest = scan_objects fs in
    if matches_oid f.path.name then record { oid = f.path.name; size = f.size } ∷ rest else rest

-- `s[from:to]`; `none` is the panic of a range behind the end.
unfoldable pub slice : ℕ → ℕ → Bytes → Option Bytes
slice from to s = if leb to (length s) then some (drop from (take to s)) else none

-- `localObjectDir`; `none` is a panic.
unfoldable pub local_object_dir : Bytes → Option (List Bytes)
local_object_dir oid = elim (slice 0 2 oid) [
  | none ↦ none
  | some first ↦ elim (slice 2 4 oid) [ none ↦ none | some second ↦ some (first ∷ second ∷ []) ]
]
