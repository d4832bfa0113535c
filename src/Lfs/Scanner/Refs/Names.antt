-- ===== src/Lfs/Scanner/Refs/Names.antt =====
-- lfs/scanner.go: the names that `revListShas` reads from the output of rev-list.
use expert_octo_doodle.Common.{
  List, [], ◌∷◌, ◌++◌, map, Option, none, some, true, false, if◌then◌else◌, leb, Bytes, equal,
  equal_iff, equal_refl, trim_space, take, drop, length, length-append, Map, lookup, insert,
  lookup-insert, is_in, ◌≡◌, refl, sym, ap, ◌∙◌, arith, All, append_assoc, append-nil,
}
use expert_octo_doodle.Lfs.Pointer.{Pointer}
use expert_octo_doodle.Lfs.Pointer.Decode.{Decoded, ok, err, panic, decode_pointer}
use expert_octo_doodle.Lfs.Scanner.{WrappedPointer}
use expert_octo_doodle.Lfs.Scanner.CatFile.{wrapped, wrap_pointer}
use expert_octo_doodle.Lfs.Scanner.CatFile.Objects.{pointers_of}
use expert_octo_doodle.Lfs.Scanner.Refs.{Revs, rev_list_line, rev_list_lines, set_names}
use expert_octo_doodle.Lfs.Scanner.Refs.Pipeline.{
  Stored, IsStored, to_git, drop-of_length, take-of_length,
}

-- The line of an object, which has no white space at its ends.
abbrev pub rev_line : Stored → Bytes
rev_line o = elim o.path [ [] ↦ o.sha1 | c ∷ s ↦ o.sha1 ++ (b' ' ∷ c ∷ s) ]

abbrev pub IsTrim : Stored → Type 0
IsTrim o = trim_space (rev_line o) ≡ rev_line o

abbrev pub IsFresh : Stored → List Stored → Type 0
IsFresh o os = is_in (map (λ p. p.sha1) os) o.sha1 ≡ false

abbrev pub DistinctShas : List Stored → Type 0
DistinctShas [] = Unit
DistinctShas (o ∷ os) = IsFresh o os × DistinctShas os

abbrev with_name : Stored → Map Bytes → Map Bytes
with_name o m = elim o.path [ [] ↦ m | c ∷ s ↦ insert o.sha1 (c ∷ s) m ]

abbrev pub names_of : List Stored → Map Bytes → Map Bytes
names_of [] m = m
names_of (o ∷ os) m = names_of os (with_name o m)

abbrev after_line : Stored → Revs → Revs
after_line o r = record { shas = r.shas ++ o.sha1 ∷ []; names = with_name o r.names }

rev_list_line-rev_line :
    (o : Stored) (r : Revs) → IsStored o → IsTrim o → rev_list_line (rev_line o) r ≡ after_line o r
unfolding rev_list_line
rev_list_line-rev_line o r h trim = go o.path o.sha1 h.sha1_length trim
  where
    go :
        (path sha1 : Bytes)
        → length sha1 ≡ 40
        → trim_space (elim path [ [] ↦ sha1 | c ∷ s ↦ sha1 ++ (b' ' ∷ c ∷ s) ])
          ≡ elim path [ [] ↦ sha1 | c ∷ s ↦ sha1 ++ (b' ' ∷ c ∷ s) ]
        → rev_list_line (elim path [ [] ↦ sha1 | c ∷ s ↦ sha1 ++ (b' ' ∷ c ∷ s) ]) r ≡ record {
          shas = r.shas ++ sha1 ∷ [];
          names = elim path [ [] ↦ r.names | c ∷ s ↦ insert sha1 (c ∷ s) r.names ];
        }
    go [] sha1 forty trim =
        let enough : leb 40 (length sha1) ≡ true = ground arith in
        let bare : leb 41 (length sha1) ≡ false = ground arith in
        let whole : take 40 sha1 ≡ sha1 =
          ap (take 40) (sym (append-nil sha1)) ∙ take-of_length 40 sha1 [] forty in
        rw (trim, enough, bare, whole, rev_list_line)
    go (c ∷ s) sha1 forty trim =
        let line = sha1 ++ (b' ' ∷ c ∷ s) in
        let size = length-append sha1 (b' ' ∷ c ∷ s) in
        let enough : leb 40 (length line) ≡ true = ground arith in
        let named : leb 41 (length line) ≡ true = ground arith in
        let first = take-of_length 40 sha1 (b' ' ∷ c ∷ s) forty in
        let second : drop 41 line ≡ c ∷ s =
          ap (drop 41) (sym (append_assoc sha1 (b' ' ∷ []) (c ∷ s)))
          ∙ drop-of_length 41 (sha1 ++ b' ' ∷ []) (c ∷ s)
              (omega (arith, forty, length-append sha1 (b' ' ∷ []))) in
        rw (trim, enough, named, first, second, rev_list_line)

pub rev_list_lines-rev_line :
    (os : List Stored) (r : Revs)
    → All IsStored os
    → All IsTrim os
    → rev_list_lines (map rev_line os) r
      ≡ record { shas = r.shas ++ map (λ o. o.sha1) os; names = names_of os r.names }
unfolding rev_list_lines
rev_list_lines-rev_line [] r h t =
    ap (λ s. record { shas = s; names = r.names }) (sym (append-nil r.shas))
rev_list_lines-rev_line (o ∷ os) r (ho, h) (to, t) =
    ap (rev_list_lines (map rev_line os)) (rev_list_line-rev_line o r ho to)
    ∙ rev_list_lines-rev_line os (after_line o r) h t
    ∙ ap (λ s. record { shas = s; names = names_of os (with_name o r.names) })
        (append_assoc r.shas (o.sha1 ∷ []) (map (λ p. p.sha1) os))

-- The entry of an object in the map of names.
abbrev pub entry_of : Stored → Option Bytes
entry_of o = elim o.path [ [] ↦ none | c ∷ s ↦ some (c ∷ s) ]

lookup-with_name :
    (o : Stored) (k : Bytes) (m : Map Bytes)
    → lookup k (with_name o m) ≡ (
        if equal o.sha1 k
        then elim o.path [ [] ↦ lookup k m | c ∷ s ↦ some (c ∷ s) ]
        else lookup k m)
lookup-with_name o k m = go o.path
  where
    go :
        (path : Bytes)
        → lookup k (elim path [ [] ↦ m | c ∷ s ↦ insert o.sha1 (c ∷ s) m ]) ≡ (
            if equal o.sha1 k
            then elim path [ [] ↦ lookup k m | c ∷ s ↦ some (c ∷ s) ]
            else lookup k m)
    go [] = ground arith
    go (c ∷ s) = lookup-insert o.sha1 k (c ∷ s) m

lookup-fresh :
    (os : List Stored) (k : Bytes) (m : Map Bytes)
    → is_in (map (λ p. p.sha1) os) k ≡ false
    → lookup k (names_of os m) ≡ lookup k m
lookup-fresh [] k m out = refl
lookup-fresh (o ∷ os) k m out =
    let other : equal o.sha1 k ≡ false = ground (arith, out) in
    lookup-fresh os k (with_name o m) (ground (arith, out)) ∙ lookup-with_name o k m ∙ rw other refl

abbrev pub HasEntry : Map Bytes → Stored → Type 0
HasEntry m o = lookup o.sha1 m ≡ entry_of o

still_fresh :
    (o : Stored) (os : List Stored) (m : Map Bytes)
    → IsFresh o os
    → All (λ p. lookup p.sha1 m ≡ none) os
    → All (λ p. lookup p.sha1 (with_name o m) ≡ none) os
still_fresh o [] m out fresh = tt
still_fresh o (p ∷ os) m out (empty, fresh) =
    let other : equal o.sha1 p.sha1 ≡ false =
      ground (arith, out, equal_iff o.sha1 p.sha1, equal_iff p.sha1 o.sha1) in
    (lookup-with_name o p.sha1 m ∙ rw other empty, still_fresh o os m (ground (arith, out)) fresh)

-- With distinct names of objects, every object has its own entry.
pub names_of-HasEntry :
    (os : List Stored) (m : Map Bytes)
    → DistinctShas os
    → All (λ o. lookup o.sha1 m ≡ none) os
    → All (HasEntry (names_of os m)) os
names_of-HasEntry [] m d fresh = tt
names_of-HasEntry (o ∷ os) m (out, d) (empty, fresh) = (
  lookup-fresh os o.sha1 (with_name o m) out
      ∙ lookup-with_name o o.sha1 m
      ∙ rw (equal_refl o.sha1) (ap (λ a. elim o.path [ [] ↦ a | c ∷ s ↦ some (c ∷ s) ]) empty),
  names_of-HasEntry os (with_name o m) d (still_fresh o os m out fresh),
)

-- The pointers among the contents, with the paths of their objects.
abbrev pub named_pointers : List Stored → List WrappedPointer
named_pointers [] = []
named_pointers (o ∷ os) = elim (wrap_pointer o.sha1 o.content) [
  | ok p ↦ record p { name = o.path } ∷ named_pointers os
  | _ ↦ named_pointers os
]

abbrev wrap_result : Bytes → Decoded Pointer → Decoded WrappedPointer
wrap_result sha1 d = elim d [ ok p ↦ ok (wrapped sha1 p) | err e ↦ err e | panic ↦ panic ]

-- One object by what its content is.
set_names-pointer :
    (m : Map Bytes) (sha1 path : Bytes) (d : Decoded Pointer) (ps qs : List WrappedPointer)
    → lookup sha1 m ≡ elim path [ [] ↦ none | c ∷ s ↦ some (c ∷ s) ]
    → set_names m ps ≡ qs
    → set_names m (elim (wrap_result sha1 d) [ ok p ↦ p ∷ ps | err e ↦ ps | panic ↦ ps ])
      ≡ elim (wrap_result sha1 d) [ ok p ↦ record p { name = path } ∷ qs | err e ↦ qs | panic ↦ qs ]
unfolding set_names
set_names-pointer m sha1 [] (ok p) ps qs entry rest = rw (entry, rest, set_names)
set_names-pointer m sha1 (c ∷ s) (ok p) ps qs entry rest = rw (entry, rest, set_names)
set_names-pointer m sha1 path (err e) ps qs entry rest = rest
set_names-pointer m sha1 path panic ps qs entry rest = rest

pub set_names-pointers_of :
    (m : Map Bytes) (os : List Stored)
    → All (HasEntry m) os
    → set_names m (pointers_of (map to_git os)) ≡ named_pointers os
unfolding set_names
set_names-pointers_of m [] h = refl
set_names-pointers_of m (o ∷ os) (ho, h) =
    set_names-pointer m o.sha1 o.path (decode_pointer o.content) (pointers_of (map to_git os))
      (named_pointers os) ho (set_names-pointers_of m os h)
