-- ===== src/Style/RoundTrip.antt =====
-- A whole style file, and the columns of the three tables.
use cerepso.Base.{
  ℕ, suc, Bytes, false, List, [], ◌∷◌, ◌++◌, All, All-append, Option, none, some, ◌≡◌, refl, ap,
  ◌∙◌, append-nil, append_assoc, ok, ◌>>=◌, Bool-cases, inl, inr, map,
}
use cerepso.Style.{ColumnConfigParser, is_empty, parse_lines, lines_loop, parse, tag_column_of}
use cerepso.Style.Words.{Plain, blanks, OneLine, Plain→OneLine, blanks-OneLine, lines_loop-append}
use cerepso.Style.Files.{
  type_name, type_of, Entry, flags_text, comment_text, line_text, file_text, CommentOneLine,
  IsValid, has_no_flag, columns, keys, dropped, more, flags_text-Plain, type_name-Plain,
}
use cerepso.Style.Entries.{after_entry, parse_line-line_text}

comment_text-OneLine : (c : Option Bytes) → CommentOneLine c → OneLine (comment_text c)
comment_text-OneLine none h = tt
comment_text-OneLine (some s) h = (refl, h)

word-OneLine : (w : Bytes) (k : ℕ) (s : Bytes) → Plain w → OneLine s → OneLine (w ++ blanks k s)
word-OneLine w k s h o = All-append _ w (blanks k s) (Plain→OneLine w h) (blanks-OneLine k s o)

line_text-OneLine : (e : Entry) → IsValid e → OneLine (line_text e)
line_text-OneLine e v = word-OneLine e.geometry (suc e.behind_geometry) _ v.geometry_plain (
    word-OneLine e.name (suc e.behind_name) _ v.name_plain (
      word-OneLine (type_name e.type) (suc e.behind_type) _ (type_name-Plain e.type) (
        All-append _ (flags_text e.flags) (comment_text e.comment)
          (Plain→OneLine _ (flags_text-Plain e.flags v.flags_plain))
          (comment_text-OneLine e.comment v.comment_line))))

lines_loop-file_text :
    (es : List Entry) → All IsValid es → lines_loop [] (file_text es) ≡ map line_text es
unfolding lines_loop
lines_loop-file_text [] h = refl
lines_loop-file_text (e ∷ es) (v, vs) =
    lines_loop-append [] (line_text e) (file_text es) (line_text-OneLine e v)
    ∙ ap (λ ls. line_text e ∷ ls) (lines_loop-file_text es vs)

more-after_entry :
    (e : Entry) (es : List Entry) (p : ColumnConfigParser)
    → more (columns es) (keys es) (dropped es) (after_entry e p)
      ≡ more (columns (e ∷ es)) (keys (e ∷ es)) (dropped (e ∷ es)) p
more-after_entry e es p = elim (Bool-cases (has_no_flag e.flags)) [
  | inl h ↦ rw (h) (
      rw
        (
          append_assoc p.m_point_columns (tag_column_of e.name (type_of e.type) ∷ []) (columns es),
          append_assoc p.m_line_columns (tag_column_of e.name (type_of e.type) ∷ []) (columns es),
          append_assoc p.m_polygon_columns (tag_column_of e.name (type_of e.type) ∷ [])
              (columns es),
          append_assoc p.m_nocolumn_keys _ (keys es),
          append_assoc p.m_drop_filter.rules _ (dropped es),
        )
        refl)
  | inr h ↦ rw (h) (
      rw
        (
          append_assoc p.m_nocolumn_keys _ (keys es),
          append_assoc p.m_drop_filter.rules _ (dropped es),
        )
        refl)
]

parse_lines-line_text :
    (es : List Entry)
    → All IsValid es
    → (p : ColumnConfigParser)
    → parse_lines (map line_text es) p ≡ ok (more (columns es) (keys es) (dropped es) p)
unfolding parse_lines
parse_lines-line_text [] h p =
    rw
      (
        append-nil p.m_point_columns,
        append-nil p.m_line_columns,
        append-nil p.m_polygon_columns,
        append-nil p.m_nocolumn_keys,
        append-nil p.m_drop_filter.rules,
      )
      refl
parse_lines-line_text (e ∷ es) (v, vs) p =
    ap (λ r. r >>= parse_lines (map line_text es)) (parse_line-line_text e v p)
    ∙ parse_lines-line_text es vs (after_entry e p)
    ∙ ap ok (more-after_entry e es p)

-- `parse` of a file with valid entries: to the columns of each table it adds one for each entry that
-- has none of the flags `nocolumn` and `delete`, in the order of the file, to the keys without column
-- the name of an entry for each of its flags `nocolumn`, and to the filter a rule for each flag
-- `delete`. Blanks between the words and comments change nothing. The file has a name and can be
-- opened.
pub parse-file_text :
    (files : Bytes → Option Bytes) (style_file : Bytes) (es : List Entry) (p : ColumnConfigParser)
    → is_empty style_file ≡ false
    → files style_file ≡ some (file_text es)
    → All IsValid es
    → parse files style_file p ≡ ok (more (columns es) (keys es) (dropped es) p)
unfolding parse
parse-file_text files style_file es p named opens v =
    rw (named, opens, lines_loop-file_text es v) (parse_lines-line_text es v p)
