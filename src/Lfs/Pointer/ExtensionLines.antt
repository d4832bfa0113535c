-- ===== src/Lfs/Pointer/ExtensionLines.antt =====
-- The lines of the extensions, read one after the other by the loop of `decodeKVData`.
use expert_octo_doodle.Common.{
  ℕ, ◌+◌, ◌≤◌, ◌<◌, List, [], ◌∷◌, ◌++◌, true, false, Bytes, codes, equal, split_once-append, Lacks,
  Map, insert, decimal, ◌≡◌, refl, ◌∙◌, arith, All, All-append, append_assoc, append-nil,
}
use expert_octo_doodle.Common.Decimal.{decimal_digit, decimal-IsDigit}
use expert_octo_doodle.Common.TextLaws.{IsVisible, Lacks-of_Visible, Lacks-append}
use expert_octo_doodle.Lfs.Pointer.{PointerExtension}
use expert_octo_doodle.Lfs.Pointer.Decode.{
  ok, Lines, decode_line, decode_pair, decode_lines, ext_re,
}
use expert_octo_doodle.Lfs.Pointer.WellFormed.{
  HasName, Increasing, IsExtension, Visible_of_digits, ext_entries, ext_key, ext_text, ext_texts,
  oid_value,
}

-- One line of an extension adds its entry.
pub name_Visible : (name : Bytes) → HasName name → All IsVisible name
name_Visible [] h = absurd h
name_Visible (c ∷ name) h = h.1

pub ext_key-Lacks : (e : PointerExtension) (b : ℕ) → b ≤ 32 → IsExtension e → Lacks b (ext_key e)
ext_key-Lacks e b le h = Lacks-append b (codes "ext-") _ (omega arith) (
    Lacks-append b (decimal e.priority) _
      (Lacks-of_Visible b _ le (Visible_of_digits _ (decimal-IsDigit e.priority)))
      (omega arith, Lacks-of_Visible b e.name le (name_Visible e.name h.name_ok)))

pub ext_re_key :
    (p : ℕ) (name : Bytes)
    → p < 10
    → HasName name
    → ext_re (codes "ext-" ++ (((b'0' + p) ∷ []) ++ (b'-' ∷ name))) ≡ true
unfolding ext_re equal
ext_re_key p [] lt h = absurd h
ext_re_key p (c ∷ name) lt h = ground arith

pub decode_line-pair :
    (c : ℕ) (key value : Bytes) (s : Lines)
    → Lacks b' ' (c ∷ key)
    → decode_line (c ∷ key ++ b' ' ∷ value) s
      ≡ decode_pair (c ∷ key ++ b' ' ∷ value) (c ∷ key) value s
unfolding decode_line
decode_line-pair c key value s h = rw (split_once-append b' ' (c ∷ key) value h, decode_line)

pub ext_key_re : (e : PointerExtension) → IsExtension e → ext_re (ext_key e) ≡ true
ext_key_re e h =
    rw (decimal_digit e.priority h.priority_lt)
      (ext_re_key e.priority e.name h.priority_lt h.name_ok)

pub decode_line-ext :
    (e : PointerExtension) (kvps exts : Map Bytes)
    → IsExtension e
    → decode_line (ext_text e) (record { line = 1; kvps = kvps; exts = exts })
      ≡ ok (record { line = 1; kvps = kvps; exts = insert (ext_key e) (oid_value e.oid) exts })
decode_line-ext e kvps exts h =
    decode_line-pair b'e' (codes "xt-" ++ (decimal e.priority ++ (b'-' ∷ e.name))) (oid_value e.oid)
      (record { line = 1; kvps = kvps; exts = exts }) (ext_key-Lacks e b' ' (omega arith) h)
    ∙ unfold decode_pair equal in rw (ext_key_re e h)

-- The lines of the extensions, one after the other.
abbrev pub IsNew : Bytes → Map Bytes → Type 0
IsNew k m = All (λ kv. equal kv.0 k ≡ false) m

pub insert_new : (k v : Bytes) (m : Map Bytes) → IsNew k m → insert k v m ≡ m ++ (k, v) ∷ []
unfolding insert
insert_new k v [] h = refl
insert_new k v ((j, w) ∷ m) (hj, h) = rw hj (rw (insert_new k v m h))

pub keys_differ :
    (e x : PointerExtension)
    → IsExtension e
    → IsExtension x
    → e.priority < x.priority
    → equal (ext_key e) (ext_key x) ≡ false
keys_differ e x he hx lt =
    rw (decimal_digit e.priority he.priority_lt, decimal_digit x.priority hx.priority_lt)
      (unfold equal in ground arith)

pub entries-snoc :
    (m : Map Bytes) (e : PointerExtension) (es : List PointerExtension)
    → IsExtension e
    → All IsExtension es
    → All (λ x. e.priority < x.priority) es
    → All (λ x. IsNew (ext_key x) m) es
    → All (λ x. IsNew (ext_key x) (m ++ (ext_key e, oid_value e.oid) ∷ [])) es
entries-snoc m e [] he hs lts news = tt
entries-snoc m e (x ∷ es) he (hx, hs) (lt, lts) (new, news) = (
  All-append (λ kv. equal kv.0 (ext_key x) ≡ false) m ((ext_key e, oid_value e.oid) ∷ []) new
      (keys_differ e x he hx lt, tt),
  entries-snoc m e es he hs lts news,
)

pub decode_lines-exts :
    (es : List PointerExtension) (more : List Bytes) (kvps m : Map Bytes)
    → All IsExtension es
    → Increasing es
    → All (λ x. IsNew (ext_key x) m) es
    → decode_lines (ext_texts es more) (record { line = 1; kvps = kvps; exts = m })
      ≡ decode_lines more (record { line = 1; kvps = kvps; exts = m ++ ext_entries es })
unfolding decode_lines
decode_lines-exts [] more kvps m h inc new = rw append-nil
decode_lines-exts (e ∷ es) more kvps m (he, h) (lt, inc) (new, news) =
    rw (decode_line-ext e kvps m he) (
      rw (insert_new (ext_key e) (oid_value e.oid) m new) (
        decode_lines-exts es more kvps (m ++ (ext_key e, oid_value e.oid) ∷ []) h inc
          (entries-snoc m e es he h lt news)
        ∙ rw append_assoc))
