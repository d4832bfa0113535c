-- ===== src/Tests/Faults.antt =====
-- Errors and their behaviours, on small inputs.
use expert_octo_doodle.Common.{◌≡◌, refl, some, true, false, codes, equal, if◌then◌else◌}
use expert_octo_doodle.Errors.{
  Fault, plain, is_error, is_fatal, new_wrapped_error, new_fatal_error, new_retriable_error,
  new_bad_pointer_key_error, new_not_a_pointer_error, standardize_bad_pointer_error,
}
use expert_octo_doodle.Errors.Chain.{standardize-new_bad_pointer_key_error}

abbrev some_fault : Fault
some_fault = plain (codes "no space left")

fatal_is_fatal : is_error is_fatal (new_fatal_error (some some_fault)) ≡ true
unfolding is_error new_wrapped_error
fatal_is_fatal = refl

retriable_is_not_fatal :
    is_error is_fatal (new_retriable_error (some (new_fatal_error (some some_fault)))) ≡ false
unfolding is_error new_wrapped_error
retriable_is_not_fatal = refl

standardize-new_bad_pointer_key_error_example :
    standardize_bad_pointer_error (new_bad_pointer_key_error (codes "version") (codes "v"))
    ≡ some (
        if equal (codes "version") (codes "version")
        then new_not_a_pointer_error
            (some (new_bad_pointer_key_error (codes "version") (codes "v")))
        else new_bad_pointer_key_error (codes "version") (codes "v"))
standardize-new_bad_pointer_key_error_example =
    standardize-new_bad_pointer_key_error (codes "version") (codes "v")
