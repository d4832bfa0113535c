-- ===== src/Errors/Chain.antt =====
-- The search for a behaviour along the causes, and which constructors keep those of what they wrap.
use expert_octo_doodle.Common.{
  ℕ, zero, suc, ◌≤◌, ◌<◌, [], ◌∷◌, none, some, Bool, true, false, ◌||◌, if◌then◌else◌, Bytes, codes,
  equal, ◌≡◌, ◌↔◌, refl, sym, ap, arith, ◌∙◌, Option-cases, inl, inr, Bool-cases,
}
use expert_octo_doodle.Errors.{
  Behaviour, fatal, retriable, bad_pointer_key, Fault, plain, formatted, annotated, behaved,
  parent_of, has, depth, is_error_within, is_error, new_wrapped_error, new_fatal_error,
  new_retriable_error, is_fatal, is_bad_pointer_key, new_not_a_pointer_error,
  standardize_bad_pointer_error, new_bad_pointer_key_error,
}

-- A cause is less deep.
parent_of-depth : (e p : Fault) → parent_of e ≡ some p → depth p < depth e
unfolding parent_of
parent_of-depth (plain m) p h = cc
parent_of-depth (formatted f args) p h = cc
parent_of-depth (annotated m e) p h = ground arith
parent_of-depth (behaved b e) p h = omega (arith, parent_of-depth e p h)

-- An error has a behaviour, itself or in one of its causes.
pub data Has (k : Behaviour → Bool) : Fault → Type 0 where
  here : {e : Fault} → has k e ≡ true → Has k e
  above : {e p : Fault} → parent_of e ≡ some p → Has k p → Has k e

within_sound : (n : ℕ) (k : Behaviour → Bool) (e : Fault) → is_error_within n k e ≡ true → Has k e
unfolding is_error_within
within_sound zero k e h = here h
within_sound (suc n) k e h = elim (Bool-cases (has k e)) [
  | inl own ↦ here own
  | inr other ↦ elim (Option-cases (parent_of e)) [
    | inl top ↦ cc (rw (other, top) at h)
    | inr (p, up) ↦ above up (within_sound n k p (rw (other, up) at h))
  ]
]

within_complete :
    (n : ℕ) (k : Behaviour → Bool) (e : Fault)
    → depth e ≤ n
    → Has k e
    → is_error_within n k e ≡ true
unfolding is_error_within
within_complete zero k e h (here own) = own
within_complete zero k e h (above {e = e'} {p} up r) =
    absurd (omega (arith, parent_of-depth e' p up))
within_complete (suc n) k e h (here own) = rw own
within_complete (suc n) k e h (above {e = e'} {p} up r) =
    ground (arith, within_complete n k p (omega (arith, parent_of-depth e' p up)) r)

-- The `Is…Error` functions answer true exactly if the error or one of its causes has the behaviour:
-- the search ends, and goes on past every error that has it not.
pub is_error_iff : (k : Behaviour → Bool) (e : Fault) → (is_error k e ≡ true) ↔ Has k e
unfolding is_error
is_error_iff k e = (within_sound (depth e) k e, within_complete (depth e) k e (omega arith))

bool_ext : (a b : Bool) → (a ≡ true → b ≡ true) → (b ≡ true → a ≡ true) → a ≡ b
bool_ext true b f g = sym (f refl)
bool_ext false true f g = g refl
bool_ext false false f g = refl

within_enough :
    (n : ℕ) (k : Behaviour → Bool) (e : Fault) → depth e ≤ n → is_error_within n k e ≡ is_error k e
within_enough n k e h =
    bool_ext _ _ (λ t. (is_error_iff k e).1 (within_sound n k e t))
      (λ t. within_complete n k e h ((is_error_iff k e).0 t))

-- One step of the search, with no fuel in sight.
pub is_error_step :
    (k : Behaviour → Bool) (e p : Fault)
    → parent_of e ≡ some p
    → is_error k e ≡ (if has k e then true else is_error k p)
is_error_step k e p up =
    sym (within_enough (suc (depth e)) k e (omega arith))
    ∙ unfold is_error_within in
      rw up (
        ap (λ (b : Bool). if has k e then true else b)
          (within_enough (depth e) k p (omega (arith, parent_of-depth e p up))))

if_or : (a b : Bool) → (if a then true else b) ≡ (a || b)
if_or a b = ground arith

-- A struct of the package that is made over an error with a message that is not empty has its own
-- behaviour and those of the error.
pub is_error-new_wrapped_error :
    (k : Behaviour → Bool) (b : Behaviour) (e : Fault) (c : ℕ) (message : Bytes)
    → is_error k (new_wrapped_error b (some e) (c ∷ message)) ≡ (k b || is_error k e)
is_error-new_wrapped_error k b e c message =
    unfold new_wrapped_error in
    is_error_step k (behaved b (annotated (c ∷ message) e)) e (unfold parent_of in refl)
    ∙ if_or (k b) (is_error k e)

-- With no message the struct embeds a struct of the package itself, and loses that one's behaviour:
-- beside its own it has those of the cause of that struct, where there is one.
pub is_error-new_wrapped_error_nil :
    (k : Behaviour → Bool) (b c : Behaviour) (x p : Fault)
    → parent_of x ≡ some p
    → is_error k (new_wrapped_error b (some (behaved c x)) []) ≡ (k b || is_error k p)
is_error-new_wrapped_error_nil k b c x p up =
    unfold new_wrapped_error in
    is_error_step k (behaved b (behaved c x)) p (unfold parent_of in up)
    ∙ if_or (k b) (is_error k p)

-- What `NewFatalError` makes of an error and `NewRetriableError` wraps is fatal only if the error was
-- so before `NewFatalError`.
pub retriable_fatal :
    (e : Fault)
    → is_error is_fatal (new_retriable_error (some (new_fatal_error (some e))))
      ≡ is_error is_fatal e
retriable_fatal e =
    let inner : new_fatal_error (some e) ≡ behaved fatal (annotated (codes "Fatal error") e) =
      unfold new_wrapped_error in refl in
    rw inner (
      is_error-new_wrapped_error_nil is_fatal retriable fatal (annotated (codes "Fatal error") e) e
        (unfold parent_of in refl))

-- `StandardizeBadPointerError` panics on an error of `NewBadPointerKeyError` that a struct of another
-- behaviour wraps with a message.
pub standardize_wrapped_panics :
    (b : Behaviour) (expected actual : Bytes) (c : ℕ) (message : Bytes)
    → is_bad_pointer_key b ≡ false
    → standardize_bad_pointer_error
        (new_wrapped_error b (some (new_bad_pointer_key_error expected actual)) (c ∷ message))
      ≡ none
unfolding standardize_bad_pointer_error
standardize_wrapped_panics (bad_pointer_key x y) expected actual c message h = cc
standardize_wrapped_panics _ expected actual c message h = refl

-- On what `NewBadPointerKeyError` makes it gives a not-a-pointer error that wraps it, where the key
-- that was expected is the version, and the error itself otherwise.
pub standardize-new_bad_pointer_key_error :
    (expected actual : Bytes)
    → standardize_bad_pointer_error (new_bad_pointer_key_error expected actual)
      ≡ some (
          if equal expected (codes "version")
          then new_not_a_pointer_error (some (new_bad_pointer_key_error expected actual))
          else new_bad_pointer_key_error expected actual)
unfolding standardize_bad_pointer_error
standardize-new_bad_pointer_key_error expected actual = ground arith
