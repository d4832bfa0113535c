-- ===== src/Errors.antt =====
-- errors/types.go, errors/errors.go: errors with a behaviour, and the search for one along the causes.
-- Stack traces and the context map of an error are left out: no behaviour depends on them.
pub mod Chain
use expert_octo_doodle.Common.{
  ℕ, zero, suc, List, [], ◌∷◌, Option, none, some, Bool, true, false, if◌then◌else◌, Bytes, codes,
  equal,
}

-- The struct that holds a `wrappedError`: the bare one, or one with a method of its own.
pub data Behaviour : Type 0 where
  wrapped fatal not_implemented auth smudge clean_pointer not_a_pointer download_declined
        retriable :
      Behaviour
  bad_pointer_key : (expected actual : Bytes) → Behaviour

-- An error that is not nil: one with no cause, made from a text or from a format and its arguments, one that `Wrap` of github.com/pkg/errors annotates,
-- or a struct of the package over the `errorWithCause` that its `wrappedError` embeds.
pub data Fault : Type 0 where
  plain : Bytes → Fault
  formatted : (format : Bytes) → (args : List Bytes) → Fault
  annotated : (message : Bytes) → Fault → Fault
  behaved : Behaviour → (embedded : Fault) → Fault

-- `err.(errorWithCause)` with `Cause()`: the structs give the cause of what they embed.
unfoldable pub parent_of : Fault → Option Fault
parent_of (plain m) = none
parent_of (formatted f args) = none
parent_of (annotated m e) = some e
parent_of (behaved b e) = parent_of e

-- Whether the struct itself has the method asked for.
abbrev pub has : (Behaviour → Bool) → Fault → Bool
has k (behaved b e) = k b
has k _ = false

abbrev pub depth : Fault → ℕ
depth (plain m) = 0
depth (formatted f args) = 0
depth (annotated m e) = suc (depth e)
depth (behaved b e) = suc (depth e)

-- The body that the `Is…Error` functions share, with the method asked for; the fuel is the depth.
unfoldable pub is_error_within : ℕ → (Behaviour → Bool) → Fault → Bool
unfolding parent_of
is_error_within zero k e = has k e
is_error_within (suc n) k e =
    let up : Bool = elim (parent_of e) [ none ↦ false | some p ↦ is_error_within n k p ] in
    if has k e then true else up

unfoldable pub is_error : (Behaviour → Bool) → Fault → Bool
unfolding is_error_within
is_error k e = is_error_within (depth e) k e

abbrev pub is_fatal : Behaviour → Bool
is_fatal fatal = true
is_fatal _ = false

abbrev pub is_not_implemented : Behaviour → Bool
is_not_implemented not_implemented = true
is_not_implemented _ = false

abbrev pub is_auth : Behaviour → Bool
is_auth auth = true
is_auth _ = false

abbrev pub is_smudge : Behaviour → Bool
is_smudge smudge = true
is_smudge _ = false

abbrev pub is_clean_pointer : Behaviour → Bool
is_clean_pointer clean_pointer = true
is_clean_pointer _ = false

abbrev pub is_not_a_pointer : Behaviour → Bool
is_not_a_pointer not_a_pointer = true
is_not_a_pointer _ = false

abbrev pub is_bad_pointer_key : Behaviour → Bool
is_bad_pointer_key (bad_pointer_key expected actual) = true
is_bad_pointer_key _ = false

abbrev pub is_download_declined : Behaviour → Bool
is_download_declined download_declined = true
is_download_declined _ = false

abbrev pub is_retriable : Behaviour → Bool
is_retriable retriable = true
is_retriable _ = false

-- `errors.IsFatalError(err)` and its like; nil has no behaviour.
abbrev pub is_error? : (Behaviour → Bool) → Option Fault → Bool
is_error? k none = false
is_error? k (some e) = is_error k e

-- The `errorWithCause` of `newWrappedError` for an error that is not nil.
unfoldable pub embed : Fault → Bytes → Fault
embed e (c ∷ message) = annotated (c ∷ message) e
embed (plain m) [] = annotated (codes "LFS") (plain m)
embed (formatted f args) [] = annotated (codes "LFS") (formatted f args)
embed e [] = e

-- `newWrappedError`, in the struct that holds it.
unfoldable pub new_wrapped_error : Behaviour → Option Fault → Bytes → Fault
unfolding embed
new_wrapped_error b none message = behaved b (embed (plain (codes "Error")) message)
new_wrapped_error b (some e) message = behaved b (embed e message)

abbrev pub wrap : Option Fault → Bytes → Fault
wrap = new_wrapped_error wrapped

abbrev pub new_fatal_error : Option Fault → Fault
new_fatal_error e = new_wrapped_error fatal e (codes "Fatal error")

abbrev pub new_not_implemented_error : Option Fault → Fault
new_not_implemented_error e = new_wrapped_error not_implemented e (codes "Not implemented")

abbrev pub new_auth_error : Option Fault → Fault
new_auth_error e = new_wrapped_error auth e (codes "Authentication required")

abbrev pub new_smudge_error : Option Fault → Fault
new_smudge_error e = new_wrapped_error smudge e (codes "Smudge error")

abbrev pub new_clean_pointer_error : Fault
new_clean_pointer_error =
    new_wrapped_error clean_pointer (some (plain (codes "pointer error"))) (codes "clean")

abbrev pub new_not_a_pointer_error : Option Fault → Fault
new_not_a_pointer_error e = new_wrapped_error not_a_pointer e (codes "Pointer file error")

abbrev pub new_bad_pointer_key_error : Bytes → Bytes → Fault
new_bad_pointer_key_error expected actual =
    new_wrapped_error (bad_pointer_key expected actual)
      (some (formatted (codes "Expected key %s, got %s") (expected ∷ actual ∷ [])))
      (codes "pointer parsing")

abbrev pub new_download_declined_error : Option Fault → Bytes → Fault
new_download_declined_error = new_wrapped_error download_declined

abbrev pub new_retriable_error : Option Fault → Fault
new_retriable_error e = new_wrapped_error retriable e []

-- `err.(badPointerKeyError)`, `none` for the panic of a failed assertion.
abbrev as_bad_pointer_key : Fault → Option Bytes
as_bad_pointer_key (behaved (bad_pointer_key expected actual) e) = some expected
as_bad_pointer_key _ = none

-- `StandardizeBadPointerError`; `none` is a panic.
unfoldable pub standardize_bad_pointer_error : Fault → Option Fault
unfolding is_error new_wrapped_error
standardize_bad_pointer_error e =
    if is_error is_bad_pointer_key e
    then elim (as_bad_pointer_key e) [
      | none ↦ none
      | some expected ↦
          if equal expected (codes "version")
          then some (new_not_a_pointer_error (some e))
          else some e
    ]
    else some e
