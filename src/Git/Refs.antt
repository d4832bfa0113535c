-- ===== src/Git/Refs.antt =====
-- git/git.go: references, as they are named, resolved and listed. What git prints is an argument, and
-- `time.Parse` a parameter; the regular expression of a line of a branch is written out, for the names of references that git
-- allows, which have no white space.
pub mod Recent
pub mod Names
use expert_octo_doodle.Common.{
  ℕ, zero, suc, ◌+◌, ◌-◌, List, [], ◌∷◌, ◌++◌, Option, none, some, Bool, true, false, not, ◌&&◌,
  ◌||◌, if◌then◌else◌, ltb, leb, ◌==◌, Bytes, codes, equal, has_prefix, split_once, trim_space,
  is_space, scan_lines, length, take, drop,
}
use expert_octo_doodle.Config.GitFetcher.{split}

pub data RefType : Type 0 where
  local_branch : RefType
  remote_branch : RefType
  local_tag : RefType
  remote_tag : RefType
  head : RefType
  other : RefType

pub record Ref : Type 0 where
  pub name : Bytes
  pub type : RefType
  pub sha : Bytes

-- `fullref[len(prefix):]`, where the prefix is there.
abbrev behind : Bytes → Bytes → Bytes
behind prefix fullref = drop (length prefix) fullref

-- `ParseRefToTypeAndName`, its tests in their order.
unfoldable pub parse_ref_to_type_and_name : Bytes → RefType × Bytes
unfolding equal has_prefix
parse_ref_to_type_and_name fullref =
    if equal fullref (codes "HEAD")
    then (head, fullref)
    else if has_prefix fullref (codes "refs/heads/")
    then (local_branch, behind (codes "refs/heads/") fullref)
    else if has_prefix fullref (codes "refs/remotes/")
    then (remote_branch, behind (codes "refs/remotes/") fullref)
    else if has_prefix fullref (codes "refs/remotes/tags/")
    then (remote_tag, behind (codes "refs/remotes/tags/") fullref)
    else if has_prefix fullref (codes "refs/tags/")
    then (local_tag, behind (codes "refs/tags/") fullref)
    else (other, fullref)

abbrev pub ref_of : Bytes → Bytes → Ref
ref_of fullref sha =
    let r = parse_ref_to_type_and_name fullref in record { name = r.1; type = r.0; sha = sha }

-- The lines that `ResolveRef` reads: the hash, and the full name if there is one.
abbrev resolved : List Bytes → Option Ref
resolved [] = none
resolved (sha ∷ []) = some (record { name = sha; type = other; sha = sha })
resolved (sha ∷ fullref ∷ lines) = some (ref_of fullref sha)

-- `ResolveRef`, over what git prints; `none` is an error.
unfoldable pub resolve_ref : Option Bytes → Option Ref
unfolding split parse_ref_to_type_and_name
resolve_ref none = none
resolve_ref (some []) = none
resolve_ref (some (c ∷ outp)) = resolved (split b'\n' (c ∷ outp))

-- What `parseRefFile` resolves.
unfoldable pub ref_file_target : Bytes → Bytes
unfolding trim_space has_prefix
ref_file_target bytes =
    let contents = trim_space bytes in
    if has_prefix contents (codes "ref:") then trim_space (drop 4 contents) else contents

abbrev is_local : RefType → Bool
is_local local_branch = true
is_local local_tag = true
is_local _ = false

-- A line of `git show-ref`, in `LocalRefs`.
unfoldable pub local_ref : Bytes → Option Ref
unfolding split_once trim_space parse_ref_to_type_and_name
local_ref text = elim (split_once b' ' (trim_space text)) [
  | none ↦ none
  | some parts ↦
      if not (length parts.0 == 40) || ltb (length parts.1) 1
      then none
      else let r = ref_of parts.1 parts.0 in if is_local r.type then some r else none
]

abbrev filter_map : (Bytes → Option Ref) → List Bytes → List Ref
filter_map f [] = []
filter_map f (line ∷ lines) = elim (f line) [
  | none ↦ filter_map f lines
  | some r ↦ r ∷ filter_map f lines
]

unfoldable pub local_refs : Bytes → List Ref
unfolding local_ref scan_lines
local_refs stdout = filter_map local_ref (scan_lines stdout)

abbrev is_digit : ℕ → Bool
is_digit c = leb b'0' c && leb c b'9'

abbrev is_alphanumeric : ℕ → Bool
is_alphanumeric c = is_digit c || ((leb b'A' c && leb c b'Z') || (leb b'a' c && leb c b'z'))

-- `\s` of a regular expression.
abbrev is_white : ℕ → Bool
is_white c = is_space c && not (c == 11)

unfoldable pub skip_blanks : Bytes → Bytes
skip_blanks [] = []
skip_blanks (c ∷ s) = let rest = skip_blanks s in if is_white c then rest else c ∷ s

-- A text up to its first white space, and what is behind that white space; `none` where there is no white space.
unfoldable pub word : Bytes → Option (Bytes × Bytes)
unfolding skip_blanks
word [] = none
word (c ∷ s) = elim (is_white c) [
  | true ↦ some ([], skip_blanks s)
  | false ↦ elim (word s) [ none ↦ none | some w ↦ some (c ∷ w.0, w.1) ]
]

unfoldable pub all_bytes : (ℕ → Bool) → Bytes → Bool
all_bytes p [] = true
all_bytes p (c ∷ s) = p c && all_bytes p s

-- `refs/[^/]+/\S+`, for a word.
unfoldable pub is_full_ref : Bytes → Bool
unfolding has_prefix split_once
is_full_ref w = has_prefix w (codes "refs/") && (elim (split_once b'/' (drop 5 w)) [
  | none ↦ false
  | some parts ↦ ltb 0 (length parts.0) && ltb 0 (length parts.1)
])

-- A text against a pattern in which `0` stands for a digit and `+` for a sign: the rest behind it.
unfoldable pub pattern_rest : Bytes → Bytes → Option Bytes
pattern_rest [] s = some s
pattern_rest (p ∷ ps) [] = none
pattern_rest (p ∷ ps) (c ∷ s) =
    let rest = pattern_rest ps s in
    if (if p == b'0' then is_digit c else if p == b'+' then c == b'+' || c == b'-' else c == p)
    then rest
    else none

-- The three words of a date, if each fits its pattern; what follows the last one does not matter.
unfoldable pub date_text : Bytes → Option Bytes
unfolding word pattern_rest
date_text s = elim (word s) [
  | none ↦ none
  | some day ↦ elim (word day.1) [
    | none ↦ none
    | some hour ↦ elim (pattern_rest (codes "0000-00-00") day.0) [
      | some [] ↦ elim (pattern_rest (codes "00:00:00") hour.0) [
        | some [] ↦ elim (pattern_rest (codes "+0000") hour.1) [
          | some more ↦ some (take (length s - length more) s)
          | none ↦ none
        ]
        | _ ↦ none
      ]
      | _ ↦ none
    ]
  ]
]

-- The groups of the regular expression of `RecentBranches`: the full name, the hash and the date.
unfoldable pub branch_line : Bytes → Option (Bytes × Bytes × Bytes)
unfolding word all_bytes is_full_ref date_text
branch_line line = elim (word line) [
  | none ↦ none
  | some full ↦ elim (word full.1) [
    | none ↦ none
    | some sha ↦
        if is_full_ref full.0 && (length sha.0 == 40 && all_bytes is_alphanumeric sha.0)
        then elim (date_text sha.1) [ none ↦ none | some date ↦ some (full.0, sha.0, date) ]
        else none
  ]
]

-- What `RecentBranches` returns: the references, and whether a date could not be read.
pub record Branches : Type 0 where
  pub refs : List Ref
  pub bad_date : Bool

abbrev is_remote : RefType → Bool
is_remote remote_branch = true
is_remote remote_tag = true
is_remote _ = false

-- The tests in front of the date.
unfoldable pub is_wanted : Bool → Bytes → Ref → Bool
unfolding equal has_prefix
is_wanted include_remotes only_remote r =
    not (is_remote r.type)
    || (include_remotes && (equal only_remote [] || has_prefix r.name (only_remote ++ codes "/")))

module _ (parse_date : Bytes → Option ℕ) (since : ℕ) (include_remotes : Bool)
    (only_remote : Bytes) where
  -- A branch that is wanted, by its date: an older one ends the loop.
  abbrev pub add_dated : Option ℕ → Ref → Branches → Branches
  add_dated none r rest = record { refs = []; bad_date = true }
  add_dated (some t) r rest =
      if ltb t since
      then record { refs = []; bad_date = false }
      else record rest { refs = r ∷ rest.refs }

  -- A round of the loop, with what the rounds behind it give.
  abbrev pub add_branch : Option (Bytes × Bytes × Bytes) → Branches → Branches
  add_branch none rest = rest
  add_branch (some g) rest =
      if is_wanted include_remotes only_remote (ref_of g.0 g.1)
      then add_dated (parse_date g.2) (ref_of g.0 g.1) rest
      else rest

  -- The loop of `RecentBranches` over the lines.
  unfoldable pub recent_branches : List Bytes → Branches
  recent_branches [] = record { refs = []; bad_date = false }
  recent_branches (line ∷ lines) = add_branch (branch_line line) (recent_branches lines)
