-- ===== src/Style/Blank.antt =====
-- Lines without a word. Only an empty line and a comment in the first column are left out.
use cerepso.Base.{
  ℕ, suc, Bytes, List, [], ◌∷◌, ◌++◌, Option, none, some, ◌≡◌, refl, ap, ◌∙◌, ok, err, ◌>>=◌,
  bind_ok,
}
use cerepso.Style.{
  ColumnConfigParser, unsupported_column_type, erase_comment, words_loop, use_words, parse_line,
  parse_lines,
}
use cerepso.Style.Words.{blanks, words_loop-blanks, erase_comment-blanks, parse_line_words}
use cerepso.Style.Files.{comment_text}

pub erase_comment-comment_text : (c : Option Bytes) → erase_comment (comment_text c) ≡ []
unfolding erase_comment
erase_comment-comment_text none = refl
erase_comment-comment_text (some s) = refl

-- The words of such a line: one that is empty.
parse_line-blanks :
    (n : ℕ) (c : Option Bytes) (p : ColumnConfigParser)
    → parse_line (blanks (suc n) (comment_text c)) p ≡ err unsupported_column_type
unfolding words_loop use_words
parse_line-blanks n c p =
    parse_line_words _ (blanks (suc n) []) ([] ∷ []) p
      (erase_comment-blanks (suc n) (comment_text c)
        ∙ ap (blanks (suc n)) (erase_comment-comment_text c))
      refl (words_loop-blanks 3 (suc n) [])
    ∙ refl

parse_lines-append :
    (before after : List Bytes) (p q : ColumnConfigParser)
    → parse_lines before p ≡ ok q
    → parse_lines (before ++ after) p ≡ parse_lines after q
unfolding parse_lines
parse_lines-append [] after p q e = ap (λ r. r >>= parse_lines after) e
parse_lines-append (line ∷ before) after p q e =
    let (r, e1, e2) = bind_ok (parse_line line p) (parse_lines before) e in
    ap (λ x. x >>= parse_lines (before ++ after)) e1 ∙ parse_lines-append before after r q e2

-- If the lines before are read without an exception, a line of blanks makes `parse` throw, also
-- where a comment follows the blanks.
pub parse_lines-blanks :
    (before after : List Bytes) (n : ℕ) (c : Option Bytes) (p q : ColumnConfigParser)
    → parse_lines before p ≡ ok q
    → parse_lines (before ++ blanks (suc n) (comment_text c) ∷ after) p
      ≡ err unsupported_column_type
unfolding parse_lines
parse_lines-blanks before after n c p q e =
    parse_lines-append before (blanks (suc n) (comment_text c) ∷ after) p q e
    ∙ ap (λ r. r >>= parse_lines after) (parse_line-blanks n c q)
