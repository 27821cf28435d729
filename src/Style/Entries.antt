-- ===== src/Style/Entries.antt =====
-- What a written style file gives: each entry its column or its rule.
use cerepso.Base.{
  ℕ, suc, Bytes, Bool, true, false, ◌&&◌, List, [], ◌∷◌, ◌++◌, equal, equal_iff, ◌≡◌, refl, sym, ap,
  ◌∙◌, arith, codes, append-nil, append_assoc, ok, Bool-cases, inl, inr, ◌⊎◌, subst,
}
use cerepso.Style.{
  check_type, ColumnConfigParser, erase_comment, words_loop, is_empty, tag_column_of, add_columns,
  apply_flags, use_words, parse_line, str_to_column_type,
}
use cerepso.Style.Words.{
  Plain, blanks, words_loop_word, words_loop_last, erase_comment-append, erase_comment-blanks,
  parse_line_words,
}
use cerepso.Style.Files.{
  StyleType, text_type, int4_type, real_type, type_name, type_of, Entry, flags_text, comment_text,
  line_text, IsValid, count_flag, has_no_flag, dropped_names, flags_of, parse_flags-flags_text,
  flags_text-Plain, type_name-Plain, type_name_word,
}
use cerepso.Style.Blank.{erase_comment-comment_text}

-- The parser behind the flags of an entry.
abbrev marked : List Bytes → List Bytes → ColumnConfigParser → ColumnConfigParser
marked ks ds p = record p {
  m_nocolumn_keys = p.m_nocolumn_keys ++ ks;
  m_drop_filter = record p.m_drop_filter { rules = p.m_drop_filter.rules ++ dropped_names ds };
}

part_cases :
    (part : Bytes)
    → (part ≡ codes "nocolumn")
      ⊎ (part ≡ codes "delete")
      ⊎ ((equal part (codes "nocolumn") ≡ false) × (equal part (codes "delete") ≡ false))
part_cases part = elim (Bool-cases (equal part (codes "nocolumn"))) [
  | inl h ↦ inl ((equal_iff part (codes "nocolumn")).0 h)
  | inr h ↦ elim (Bool-cases (equal part (codes "delete"))) [
    | inl d ↦ inr (inl ((equal_iff part (codes "delete")).0 d))
    | inr d ↦ inr (inr (h, d))
  ]
]

abbrev AppliesAll : Bytes → List Bytes → Bool → ColumnConfigParser → Type 0
AppliesAll name parts b p = apply_flags name (flags_of parts) b p ≡ (
  b && has_no_flag parts,
  marked (count_flag (codes "nocolumn") name parts) (count_flag (codes "delete") name parts) p,
)

and-false : (b : Bool) → (b && false) ≡ false
and-false b = ground arith

apply_flags-flags_of :
    (name : Bytes) (parts : List Bytes) (b : Bool) (p : ColumnConfigParser)
    → AppliesAll name parts b p
unfolding apply_flags
apply_flags-flags_of name [] b p =
    rw (append-nil p.m_nocolumn_keys, append-nil p.m_drop_filter.rules) (ground arith)
apply_flags-flags_of name (part ∷ parts) b p = elim (part_cases part) [
  | inl h ↦
      subst (λ v. AppliesAll name (v ∷ parts) b p) (sym h)
        (apply_flags-flags_of name parts false _
          ∙ rw
              (
                and-false b,
                append_assoc p.m_nocolumn_keys (name ∷ [])
                    (count_flag (codes "nocolumn") name parts),
              )
              refl)
  | inr (inl h) ↦
      subst (λ v. AppliesAll name (v ∷ parts) b p) (sym h)
        (apply_flags-flags_of name parts false _
          ∙ rw
              (
                and-false b,
                append_assoc p.m_drop_filter.rules ((true, name) ∷ [])
                    (dropped_names (count_flag (codes "delete") name parts)),
              )
              refl)
  | inr (inr (h, d)) ↦ rw (h, d) (apply_flags-flags_of name parts b p)
]

check_type-type_name :
    (t : StyleType) → check_type (str_to_column_type (type_name t)) ≡ ok (type_of t)
unfolding str_to_column_type
check_type-type_name text_type = refl
check_type-type_name int4_type = refl
check_type-type_name real_type = refl

-- The parser behind an entry.
abbrev pub after_entry : Entry → ColumnConfigParser → ColumnConfigParser
after_entry e p = add_columns (tag_column_of e.name (type_of e.type)) (
  has_no_flag e.flags,
  marked (count_flag (codes "nocolumn") e.name e.flags) (count_flag (codes "delete") e.name e.flags)
      p,
)

use_words-flags_text :
    (e : Entry)
    → IsValid e
    → (p : ColumnConfigParser)
    → use_words e.name (type_name e.type) (flags_text e.flags) p ≡ ok (after_entry e p)
unfolding use_words
use_words-flags_text e v p =
    rw
      (
        v.not_special,
        check_type-type_name e.type,
        parse_flags-flags_text e.flags v.flags_NoComma,
        apply_flags-flags_of e.name e.flags true p,
      )
      refl

-- The line without its comment.
abbrev bare_line : Entry → Bytes
bare_line e =
    e.geometry
    ++ blanks (suc e.behind_geometry) (
        e.name
        ++ blanks (suc e.behind_name)
            (type_name e.type ++ blanks (suc e.behind_type) (flags_text e.flags)))

erase_comment-word :
    (w : Bytes) (k : ℕ) (s t : Bytes)
    → Plain w
    → erase_comment s ≡ t
    → erase_comment (w ++ blanks k s) ≡ w ++ blanks k t
erase_comment-word w k s t h e =
    erase_comment-append w (blanks k s) h
    ∙ ap (λ v. w ++ v) (erase_comment-blanks k s ∙ ap (blanks k) e)

erase_comment-line_text : (e : Entry) → IsValid e → erase_comment (line_text e) ≡ bare_line e
erase_comment-line_text e v =
    let flags = flags_text e.flags in
    erase_comment-word e.geometry (suc e.behind_geometry) _ _ v.geometry_plain (
      erase_comment-word e.name (suc e.behind_name) _ _ v.name_plain (
        erase_comment-word (type_name e.type) (suc e.behind_type) _ _ (type_name-Plain e.type) (
          erase_comment-append flags (comment_text e.comment)
            (flags_text-Plain e.flags v.flags_plain)
          ∙ ap (λ s. flags ++ s) (erase_comment-comment_text e.comment)
          ∙ append-nil flags)))

words_loop-bare_line :
    (e : Entry)
    → IsValid e
    → words_loop 4 [] (bare_line e)
      ≡ e.geometry ∷ e.name ∷ type_name e.type ∷ flags_text e.flags ∷ []
words_loop-bare_line e v =
    words_loop_word 2 e.behind_geometry e.geometry _ v.geometry_plain v.geometry_word
    ∙ ap (λ s. e.geometry ∷ s)
        (words_loop_word 1 e.behind_name e.name _ v.name_plain v.name_word
          ∙ ap (λ s. e.name ∷ s)
              (words_loop_word 0 e.behind_type (type_name e.type) _ (type_name-Plain e.type)
                  (type_name_word e.type)
                ∙ ap (λ s. type_name e.type ∷ s)
                    (words_loop_last 0 (flags_text e.flags)
                      (flags_text-Plain e.flags v.flags_plain))))

is_empty-append : (w s : Bytes) → is_empty w ≡ false → is_empty (w ++ s) ≡ false
is_empty-append [] s h = cc
is_empty-append (c ∷ w) s h = refl

pub parse_line-line_text :
    (e : Entry)
    → IsValid e
    → (p : ColumnConfigParser) → parse_line (line_text e) p ≡ ok (after_entry e p)
parse_line-line_text e v p =
    parse_line_words (line_text e) (bare_line e) _ p (erase_comment-line_text e v)
      (is_empty-append e.geometry _ v.geometry_word) (words_loop-bare_line e v)
    ∙ use_words-flags_text e v p
