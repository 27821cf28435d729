-- ===== src/Style/Files.antt =====
-- A style file that is written out from its entries, and what `parse` reads from it.
use cerepso.Base.{
  ℕ, suc, Bytes, Bool, true, false, not, ◌&&◌, ◌||◌, List, [], ◌∷◌, ◌++◌, All, All-append, Option,
  none, some, equal, ◌≡◌, refl, sym, ap, ◌∙◌, codes, append-nil, if◌then◌else◌,
}
use cerepso.Columns.{ColumnType, Column, int, real, text}
use cerepso.Style.{
  ColumnConfigParser, ColumnConfigFlag, flag_of, flags_loop, parse_flags, is_empty, tag_column_of,
}
use cerepso.Style.Words.{plain, Plain, blanks, OneLine, NoComma, flags_loop-append}

-- The types that a style file may name.
pub data StyleType : Type 0 where
  text_type int4_type real_type : StyleType

abbrev pub type_name : StyleType → Bytes
type_name text_type = codes "text"
type_name int4_type = codes "int4"
type_name real_type = codes "real"

abbrev pub type_of : StyleType → ColumnType
type_of text_type = text
type_of int4_type = int
type_of real_type = real

-- An entry, with the numbers of further blanks behind its first three words, and with its comment.
pub record Entry : Type 0 where
  pub geometry : Bytes
  pub name : Bytes
  pub type : StyleType
  pub flags : List Bytes
  pub behind_geometry : ℕ
  pub behind_name : ℕ
  pub behind_type : ℕ
  pub comment : Option Bytes

abbrev pub flags_text : List Bytes → Bytes
flags_text [] = []
flags_text (part ∷ []) = part
flags_text (part ∷ next ∷ parts) = part ++ b',' ∷ flags_text (next ∷ parts)

abbrev pub comment_text : Option Bytes → Bytes
comment_text none = []
comment_text (some s) = b'#' ∷ s

abbrev pub line_text : Entry → Bytes
line_text e =
    e.geometry
    ++ blanks (suc e.behind_geometry) (
        e.name
        ++ blanks (suc e.behind_name) (
            type_name e.type
            ++ blanks (suc e.behind_type) (flags_text e.flags ++ comment_text e.comment)))

abbrev pub file_text : List Entry → Bytes
file_text [] = []
file_text (e ∷ es) = line_text e ++ b'\n' ∷ file_text es

abbrev pub is_special : Bytes → Bool
is_special name = equal name (codes "way_area") || equal name (codes "z_order")

abbrev pub CommentOneLine : Option Bytes → Type 0
CommentOneLine none = Unit
CommentOneLine (some s) = OneLine s

-- Words without blanks, newlines and number signs, flags also without commas, and a name that is
-- not one of the two that are skipped.
pub record IsValid (e : Entry) : Type 0 where
  pub geometry_plain : Plain e.geometry
  pub geometry_word : is_empty e.geometry ≡ false
  pub name_plain : Plain e.name
  pub name_word : is_empty e.name ≡ false
  pub not_special : is_special e.name ≡ false
  pub flags_plain : All Plain e.flags
  pub flags_NoComma : All NoComma e.flags
  pub comment_line : CommentOneLine e.comment

-- What the entries ask for: a column for each without one of the two flags, its name for each of
-- these flags.
abbrev pub count_flag : Bytes → Bytes → List Bytes → List Bytes
count_flag flag name [] = []
count_flag flag name (part ∷ parts) =
    if equal part flag then name ∷ count_flag flag name parts else count_flag flag name parts

abbrev pub has_no_flag : List Bytes → Bool
has_no_flag [] = true
has_no_flag (part ∷ parts) =
    not (equal part (codes "nocolumn") || equal part (codes "delete")) && has_no_flag parts

abbrev pub columns : List Entry → List Column
columns [] = []
columns (e ∷ es) =
    if has_no_flag e.flags then tag_column_of e.name (type_of e.type) ∷ columns es else columns es

abbrev pub keys : List Entry → List Bytes
keys [] = []
keys (e ∷ es) = count_flag (codes "nocolumn") e.name e.flags ++ keys es

abbrev pub dropped_names : List Bytes → List (Bool × Bytes)
dropped_names [] = []
dropped_names (name ∷ names) = (true, name) ∷ dropped_names names

abbrev pub dropped : List Entry → List (Bool × Bytes)
dropped [] = []
dropped (e ∷ es) = dropped_names (count_flag (codes "delete") e.name e.flags) ++ dropped es

abbrev pub more :
    List Column → List Bytes → List (Bool × Bytes) → ColumnConfigParser → ColumnConfigParser
more cs ks ds p = record {
  m_point_columns = p.m_point_columns ++ cs;
  m_line_columns = p.m_line_columns ++ cs;
  m_polygon_columns = p.m_polygon_columns ++ cs;
  m_nocolumn_keys = p.m_nocolumn_keys ++ ks;
  m_drop_filter = record p.m_drop_filter { rules = p.m_drop_filter.rules ++ ds };
}

abbrev pub flags_of : List Bytes → List ColumnConfigFlag
flags_of [] = []
flags_of (part ∷ parts) = flag_of part ++ flags_of parts

flags_loop-comma : (part w : Bytes) → flags_loop part (b',' ∷ w) ≡ flag_of part ++ flags_loop [] w
unfolding flags_loop
flags_loop-comma part w = refl

flags_loop_end : (part : Bytes) → flags_loop part [] ≡ flag_of part
unfolding flags_loop
flags_loop_end part = refl

pub parse_flags-flags_text :
    (parts : List Bytes) → All NoComma parts → parse_flags (flags_text parts) ≡ flags_of parts
unfolding parse_flags
parse_flags-flags_text [] h = flags_loop_end []
parse_flags-flags_text (part ∷ []) (h, hs) =
    ap (flags_loop []) (sym (append-nil part))
    ∙ flags_loop-append [] part [] h
    ∙ flags_loop_end part
    ∙ sym (append-nil (flag_of part))
parse_flags-flags_text (part ∷ next ∷ parts) (h, hs) =
    flags_loop-append [] part (b',' ∷ flags_text (next ∷ parts)) h
    ∙ flags_loop-comma part (flags_text (next ∷ parts))
    ∙ ap (λ v. flag_of part ++ v) (parse_flags-flags_text (next ∷ parts) hs)

pub flags_text-Plain : (parts : List Bytes) → All Plain parts → Plain (flags_text parts)
flags_text-Plain [] h = tt
flags_text-Plain (part ∷ []) (h, hs) = h
flags_text-Plain (part ∷ next ∷ parts) (h, hs) =
    All-append (λ c. plain c ≡ true) part _ h (refl, flags_text-Plain (next ∷ parts) hs)

pub type_name-Plain : (t : StyleType) → Plain (type_name t)
type_name-Plain text_type = (refl, (refl, (refl, (refl, tt))))
type_name-Plain int4_type = (refl, (refl, (refl, (refl, tt))))
type_name-Plain real_type = (refl, (refl, (refl, (refl, tt))))

pub type_name_word : (t : StyleType) → is_empty (type_name t) ≡ false
type_name_word text_type = refl
type_name_word int4_type = refl
type_name_word real_type = refl
