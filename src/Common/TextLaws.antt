-- ===== src/Common/TextLaws.antt =====
-- Trimming, and the lines of a text.
use Prim.Native.Nat.{ℕ, ◌≤◌, ◌<◌}
use mathlib.Core.Bool.{false}
use mathlib.Core.List.{[], ◌∷◌, ◌++◌, append-nil, append_assoc}
use mathlib.Core.Logic.{◌≢◌}
use mathlib.Core.Path.{◌≡◌, refl, ◌∙◌}
use native.Mathlib.Omega.{arith}
use expert_octo_doodle.Common.Lists.{All}
use expert_octo_doodle.Common.Texts.{
  Bytes, Lacks, is_space, trim_left, trim_right, trim_space, drop_cr, scan_lines_from, scan_lines,
}

-- No control byte and no space.
abbrev pub IsVisible : ℕ → Type 0
IsVisible c = 32 < c

pub Lacks-of_Visible : (b : ℕ) (s : Bytes) → b ≤ 32 → All IsVisible s → Lacks b s
Lacks-of_Visible b [] h v = tt
Lacks-of_Visible b (c ∷ s) h (vc, v) = (omega arith, Lacks-of_Visible b s h v)

pub Lacks-append : (b : ℕ) (s t : Bytes) → Lacks b s → Lacks b t → Lacks b (s ++ t)
Lacks-append b [] t hs ht = ht
Lacks-append b (c ∷ s) t (hc, hs) ht = (hc, Lacks-append b s t hs ht)

pub trim_left-cons : (c : ℕ) (s : Bytes) → is_space c ≡ false → trim_left (c ∷ s) ≡ c ∷ s
unfolding trim_left
trim_left-cons c s h = rw h

-- What is kept of a text's end is kept behind any text.
trim_right-append :
    (s t u : Bytes) (d : ℕ) → trim_right t ≡ d ∷ u → trim_right (s ++ t) ≡ s ++ (d ∷ u)
unfolding trim_right
trim_right-append [] t u d h = h
trim_right-append (c ∷ []) t u d h = rw (h, trim_right)
trim_right-append (c ∷ e ∷ s) t u d h = rw (trim_right-append (e ∷ s) t u d h, trim_right)

trim_right_newline :
    (c : ℕ) (w : Bytes) → All IsVisible (c ∷ w) → trim_right ((c ∷ w) ++ b'\n' ∷ []) ≡ c ∷ w
unfolding trim_right
trim_right_newline c [] (h, _) = ground arith
trim_right_newline c (d ∷ w) (h, v) = rw (trim_right_newline d w v, trim_right)

-- A text that begins and ends visibly loses the newline behind it, and nothing else.
pub trim_space_newline :
    (c : ℕ) (s w : Bytes)
    → IsVisible c
    → All IsVisible w
    → w ≢ []
    → trim_space ((c ∷ s) ++ (w ++ b'\n' ∷ [])) ≡ (c ∷ s) ++ w
unfolding trim_space
trim_space_newline c s [] v vs ne = absurd (ne refl)
trim_space_newline c s (d ∷ w) v vs ne =
    rw (trim_left-cons c (s ++ ((d ∷ w) ++ b'\n' ∷ [])) (ground arith))
      (trim_right-append (c ∷ s) ((d ∷ w) ++ b'\n' ∷ []) w d (trim_right_newline d w vs))

pub drop_cr_self : (s : Bytes) → Lacks b'\r' s → drop_cr s ≡ s
unfolding drop_cr
drop_cr_self [] h = refl
drop_cr_self (c ∷ []) h = ground arith
drop_cr_self (c ∷ d ∷ s) (hc, h) = rw (drop_cr_self (d ∷ s) h)

scan_lines_from-line :
    (line l rest : Bytes)
    → Lacks b'\n' l
    → scan_lines_from line (l ++ b'\n' ∷ rest) ≡ drop_cr (line ++ l) ∷ scan_lines_from [] rest
unfolding scan_lines_from
scan_lines_from-line line [] rest h = rw append-nil
scan_lines_from-line line (c ∷ l) rest (hc, h) =
    ground (arith, scan_lines_from-line (line ++ c ∷ []) l rest h, append_assoc line (c ∷ []) l)

scan_lines_from-end :
    (line l : Bytes)
    → Lacks b'\n' l
    → line ++ l ≢ []
    → scan_lines_from line l ≡ drop_cr (line ++ l) ∷ []
unfolding scan_lines_from
scan_lines_from-end [] [] h ne = absurd (ne refl)
scan_lines_from-end (c ∷ line) [] h ne = rw append-nil
scan_lines_from-end line (c ∷ l) (hc, h) ne =
    ground (arith, scan_lines_from-end (line ++ c ∷ []) l h, append_assoc line (c ∷ []) l)

-- The lines of a text with a first line, and those of a line alone.
pub scan_lines-line :
    (l rest : Bytes)
    → Lacks b'\n' l
    → Lacks b'\r' l
    → scan_lines (l ++ b'\n' ∷ rest) ≡ l ∷ scan_lines rest
unfolding scan_lines
scan_lines-line l rest n r = scan_lines_from-line [] l rest n ∙ rw (drop_cr_self l r)

pub scan_lines_end : (l : Bytes) → Lacks b'\n' l → Lacks b'\r' l → l ≢ [] → scan_lines l ≡ l ∷ []
unfolding scan_lines
scan_lines_end l n r ne = scan_lines_from-end [] l n ne ∙ rw (drop_cr_self l r)
