-- ===== src/Style.antt =====
-- src/column_config_parser.cpp: `ColumnConfigParser` reads a style file, which says which keys get a
-- column, which do not, and which objects are dropped.
pub mod Words
pub mod Files
pub mod Entries
pub mod RoundTrip
pub mod Blank
use cerepso.Base.{
  ℕ, zero, suc, Bytes, Bool, true, false, ◌||◌, List, [], ◌∷◌, ◌++◌, Option, none, some,
  if◌then◌else◌, ◌==◌, equal, codes, Result, ok, err, ◌>>=◌,
}
use cerepso.Columns.{
  ColumnType, Column, TableType, none_type, int, real, text, tag, point, ways_linear, area,
}
use cerepso.Columns.Tables.{TagsFilter, Columns, DriverConfig, columns_with_style}

pub data ColumnConfigFlag : Type 0 where
  linear polygon nocolumn delete : ColumnConfigFlag

-- The two exceptions of `parse`.
pub data Fault : Type 0 where
  open_failed unsupported_column_type : Fault

pub record ColumnConfigParser : Type 0 where
  pub m_point_columns : List Column
  pub m_line_columns : List Column
  pub m_polygon_columns : List Column
  pub m_nocolumn_keys : List Bytes
  pub m_drop_filter : TagsFilter

unfoldable pub column_config_parser : ColumnConfigParser
column_config_parser = record {
  m_point_columns = [];
  m_line_columns = [];
  m_polygon_columns = [];
  m_nocolumn_keys = [];
  m_drop_filter = record { default_result = false; rules = [] };
}

abbrev pub flag_of : Bytes → List ColumnConfigFlag
flag_of part =
    if equal part (codes "nocolumn")
    then nocolumn ∷ []
    else if equal part (codes "delete")
    then delete ∷ []
    else []

-- The loop over the parts between commas; `part` is what lies behind `pos`.
unfoldable pub flags_loop : Bytes → Bytes → List ColumnConfigFlag
flags_loop part [] = flag_of part
flags_loop part (c ∷ rest) = elim (c == b',') [
  | true ↦ flag_of part ++ flags_loop [] rest
  | false ↦ flags_loop (part ++ c ∷ []) rest
]

unfoldable pub parse_flags : Bytes → List ColumnConfigFlag
unfolding flags_loop
parse_flags flags = flags_loop [] flags

unfoldable pub str_to_column_type : Bytes → ColumnType
str_to_column_type type =
    if equal type (codes "text")
    then text
    else if equal type (codes "int4")
    then int
    else if equal type (codes "real")
    then real
    else none_type

unfoldable pub erase_comment : Bytes → Bytes
erase_comment [] = []
erase_comment (c ∷ line) = elim (c == b'#') [ true ↦ [] | false ↦ c ∷ erase_comment line ]

abbrev pub is_empty : Bytes → Bool
is_empty [] = true
is_empty (c ∷ s) = false

-- The loop over the words of a line. The number says how many are left of 4, and `word` is what lies
-- behind `pos`: where it is empty at a blank, `next` is `pos`. At the end of the line `next` is npos.
unfoldable pub words_loop : ℕ → Bytes → Bytes → List Bytes
words_loop zero word rest = []
words_loop (suc n) word [] = word ∷ []
words_loop (suc n) word (c ∷ rest) = elim (c == b' ') [
  | false ↦ words_loop (suc n) (word ++ c ∷ []) rest
  | true ↦ elim (is_empty word) [
    | true ↦ words_loop (suc n) [] rest
    | false ↦ word ∷ words_loop n [] rest
  ]
]

-- The i-th word. A variable that no word is assigned to stays empty.
abbrev pub word_at : ℕ → List Bytes → Bytes
word_at i [] = []
word_at zero (w ∷ ws) = w
word_at (suc i) (w ∷ ws) = word_at i ws

-- The loop over the flags, with `create_column`.
unfoldable pub apply_flags :
    Bytes → List ColumnConfigFlag → Bool → ColumnConfigParser → Bool × ColumnConfigParser
apply_flags name [] create_column p = (create_column, p)
apply_flags name (delete ∷ flags) create_column p = apply_flags name flags false (record p {
  m_drop_filter = record p.m_drop_filter { rules = p.m_drop_filter.rules ++ (true, name) ∷ [] };
})
apply_flags name (nocolumn ∷ flags) create_column p =
    apply_flags name flags false (record p { m_nocolumn_keys = p.m_nocolumn_keys ++ name ∷ [] })
apply_flags name (_ ∷ flags) create_column p = apply_flags name flags create_column p

abbrev pub tag_column_of : Bytes → ColumnType → Column
tag_column_of name ctype = record { name = name; type = ctype; epsg = 0; column_class = tag }

-- The end of the loop's body, where `create_column` is the flag.
abbrev pub add_columns : Column → Bool × ColumnConfigParser → ColumnConfigParser
add_columns c (false, p) = p
add_columns c (true, p) = record p {
  m_point_columns = p.m_point_columns ++ c ∷ [];
  m_line_columns = p.m_line_columns ++ c ∷ [];
  m_polygon_columns = p.m_polygon_columns ++ c ∷ [];
}

abbrev pub check_type : ColumnType → Result Fault ColumnType
check_type none_type = err unsupported_column_type
check_type ctype = ok ctype

-- What a line does once its words are known. The geometry is not used.
unfoldable pub use_words :
    Bytes → Bytes → Bytes → ColumnConfigParser → Result Fault ColumnConfigParser
unfolding str_to_column_type parse_flags apply_flags
use_words name type flags p =
    if equal name (codes "way_area") || equal name (codes "z_order")
    then ok p
    else (check_type (str_to_column_type type) >>= λ ctype.
        ok (add_columns (tag_column_of name ctype) (apply_flags name (parse_flags flags) true p)))

unfoldable pub parse_line : Bytes → ColumnConfigParser → Result Fault ColumnConfigParser
unfolding erase_comment words_loop use_words
parse_line line p =
    let erased = erase_comment line in
    let words = words_loop 4 [] erased in
    if is_empty erased
    then ok p
    else use_words (word_at 1 words) (word_at 2 words) (word_at 3 words) p

-- `std::getline` until the end of the file.
unfoldable pub lines_loop : Bytes → Bytes → List Bytes
lines_loop [] [] = []
lines_loop (c ∷ line) [] = (c ∷ line) ∷ []
lines_loop line (d ∷ rest) = elim (d == b'\n') [
  | true ↦ line ∷ lines_loop [] rest
  | false ↦ lines_loop (line ++ d ∷ []) rest
]

unfoldable pub parse_lines : List Bytes → ColumnConfigParser → Result Fault ColumnConfigParser
unfolding parse_line
parse_lines [] p = ok p
parse_lines (line ∷ lines) p = parse_line line p >>= parse_lines lines

abbrev pub opened : Option Bytes → Result Fault Bytes
opened none = err open_failed
opened (some content) = ok content

-- The file system is a parameter: the content of a file that can be opened.
unfoldable pub parse :
    (Bytes → Option Bytes) → Bytes → ColumnConfigParser → Result Fault ColumnConfigParser
unfolding lines_loop parse_lines
parse files style_file p =
    if is_empty style_file
    then ok p
    else (opened (files style_file) >>= λ content. parse_lines (lines_loop [] content) p)

-- The name and the columns that the constructor of each table gets.
unfoldable pub make_point_table : DriverConfig → Bytes → ColumnConfigParser → Bytes × Columns
unfolding columns_with_style
make_point_table config prefix p = (
  prefix ++ codes "point",
  columns_with_style config p.m_point_columns p.m_drop_filter p.m_nocolumn_keys point,
)

unfoldable pub make_line_table : DriverConfig → Bytes → ColumnConfigParser → Bytes × Columns
unfolding columns_with_style
make_line_table config prefix p = (
  prefix ++ codes "line",
  columns_with_style config p.m_line_columns p.m_drop_filter p.m_nocolumn_keys ways_linear,
)

unfoldable pub make_polygon_table : DriverConfig → Bytes → ColumnConfigParser → Bytes × Columns
unfolding columns_with_style
make_polygon_table config prefix p = (
  prefix ++ codes "polygon",
  columns_with_style config p.m_polygon_columns p.m_drop_filter p.m_nocolumn_keys area,
)
