-- ===== src/Style/Words.antt =====
-- The words, flags and comments of a line that is written out from its parts.
use cerepso.Base.{
  ℕ, zero, suc, Bytes, Bool, true, false, not, ◌&&◌, List, [], ◌∷◌, ◌++◌, All, ◌==◌, ◌≡◌, refl, sym,
  ap, ◌∙◌, arith, append-nil, append_assoc,
}
use cerepso.Style.{
  flags_loop, erase_comment, words_loop, is_empty, lines_loop, ColumnConfigParser, parse_line,
  use_words, word_at,
}

-- No blank, number sign or newline.
abbrev pub plain : ℕ → Bool
plain c = not (c == b' ') && not (c == b'#') && not (c == b'\n')

abbrev pub Plain : Bytes → Type 0
Plain = All (λ c. plain c ≡ true)

plain-blank : (c : ℕ) → plain c ≡ true → (c == b' ') ≡ false
plain-blank c h = ground arith

plain-number_sign : (c : ℕ) → plain c ≡ true → (c == b'#') ≡ false
plain-number_sign c h = ground arith

plain-newline : (c : ℕ) → plain c ≡ true → (c == b'\n') ≡ false
plain-newline c h = ground arith

-- Blanks in front of a text.
abbrev pub blanks : ℕ → Bytes → Bytes
blanks zero s = s
blanks (suc k) s = b' ' ∷ blanks k s

pub words_loop-blanks :
    (n k : ℕ) (s : Bytes) → words_loop (suc n) [] (blanks k s) ≡ words_loop (suc n) [] s
unfolding words_loop
words_loop-blanks n zero s = refl
words_loop-blanks n (suc k) s = words_loop-blanks n k s

words_loop-append :
    (n : ℕ) (word w s : Bytes)
    → Plain w
    → words_loop (suc n) word (w ++ s) ≡ words_loop (suc n) (word ++ w) s
unfolding words_loop
words_loop-append n word [] s h = ap (λ v. words_loop (suc n) v s) (sym (append-nil word))
words_loop-append n word (c ∷ w) s (hc, h) =
    rw (words_loop, plain-blank c hc)
      (words_loop-append n (word ++ c ∷ []) w s h
        ∙ ap (λ v. words_loop (suc n) v s) (append_assoc word (c ∷ []) w))

words_loop_end :
    (n : ℕ) (w s : Bytes)
    → is_empty w ≡ false
    → words_loop (suc n) w (b' ' ∷ s) ≡ w ∷ words_loop n [] s
unfolding words_loop
words_loop_end n w s h = rw (words_loop, h) refl

-- A word with blanks behind it.
pub words_loop_word :
    (n k : ℕ) (w s : Bytes)
    → Plain w
    → is_empty w ≡ false
    → words_loop (suc (suc n)) [] (w ++ blanks (suc k) s) ≡ w ∷ words_loop (suc n) [] s
words_loop_word n k w s h e =
    words_loop-append (suc n) [] w (blanks (suc k) s) h
    ∙ words_loop_end (suc n) w (blanks k s) e
    ∙ ap (λ v. w ∷ v) (words_loop-blanks n k s)

-- The last word.
pub words_loop_last : (n : ℕ) (w : Bytes) → Plain w → words_loop (suc n) [] w ≡ w ∷ []
unfolding words_loop
words_loop_last n w h =
    ap (words_loop (suc n) []) (sym (append-nil w)) ∙ words_loop-append n [] w [] h

pub erase_comment-append : (w s : Bytes) → Plain w → erase_comment (w ++ s) ≡ w ++ erase_comment s
unfolding erase_comment
erase_comment-append [] s h = refl
erase_comment-append (c ∷ w) s (hc, h) =
    rw (erase_comment, plain-number_sign c hc) (ap (λ v. c ∷ v) (erase_comment-append w s h))

pub erase_comment-blanks :
    (k : ℕ) (s : Bytes) → erase_comment (blanks k s) ≡ blanks k (erase_comment s)
unfolding erase_comment
erase_comment-blanks zero s = refl
erase_comment-blanks (suc k) s = ap (λ v. b' ' ∷ v) (erase_comment-blanks k s)

-- Neither a newline.
abbrev pub OneLine : Bytes → Type 0
OneLine = All (λ c. (c == b'\n') ≡ false)

pub Plain→OneLine : (w : Bytes) → Plain w → OneLine w
Plain→OneLine [] h = tt
Plain→OneLine (c ∷ w) (hc, h) = (plain-newline c hc, Plain→OneLine w h)

pub blanks-OneLine : (k : ℕ) (s : Bytes) → OneLine s → OneLine (blanks k s)
blanks-OneLine zero s h = h
blanks-OneLine (suc k) s h = (refl, blanks-OneLine k s h)

pub lines_loop-append :
    (line w s : Bytes)
    → OneLine w
    → lines_loop line (w ++ b'\n' ∷ s) ≡ (line ++ w) ∷ lines_loop [] s
unfolding lines_loop
lines_loop-append line [] s h = ap (λ v. v ∷ lines_loop [] s) (sym (append-nil line))
lines_loop-append line (c ∷ w) s (hc, h) =
    rw (lines_loop, hc)
      (lines_loop-append (line ++ c ∷ []) w s h
        ∙ ap (λ v. v ∷ lines_loop [] s) (append_assoc line (c ∷ []) w))

-- A part of the flags has no comma.
abbrev pub NoComma : Bytes → Type 0
NoComma = All (λ c. (c == b',') ≡ false)

pub flags_loop-append :
    (part w s : Bytes) → NoComma w → flags_loop part (w ++ s) ≡ flags_loop (part ++ w) s
unfolding flags_loop
flags_loop-append part [] s h = ap (λ v. flags_loop v s) (sym (append-nil part))
flags_loop-append part (c ∷ w) s (hc, h) =
    rw (flags_loop, hc)
      (flags_loop-append (part ++ c ∷ []) w s h
        ∙ ap (λ v. flags_loop v s) (append_assoc part (c ∷ []) w))

-- A line with these words.
pub parse_line_words :
    (line erased : Bytes) (words : List Bytes) (p : ColumnConfigParser)
    → erase_comment line ≡ erased
    → is_empty erased ≡ false
    → words_loop 4 [] erased ≡ words
    → parse_line line p ≡ use_words (word_at 1 words) (word_at 2 words) (word_at 3 words) p
unfolding parse_line
parse_line_words line erased words p h e w = rw (h, e, w) refl
