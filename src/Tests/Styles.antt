-- ===== src/Tests/Styles.antt =====
-- A style file with a comment, further blanks and flags.
use cerepso.Base.{Bytes, [], ◌∷◌, Option, none, some, ◌≡◌, refl, codes, ok, err}
use cerepso.Style.{column_config_parser, parse, parse_lines, unsupported_column_type}
use cerepso.Style.Words.{blanks}
use cerepso.Style.Files.{
  Entry, text_type, int4_type, IsValid, file_text, columns, keys, dropped, more,
}
use cerepso.Style.RoundTrip.{parse-file_text}
use cerepso.Style.Blank.{parse_lines-blanks}

abbrev name : Entry
name = record {
  geometry = codes "node";
  name = codes "name";
  type = text_type;
  flags = codes "linear" ∷ [];
  behind_geometry = 2;
  behind_name = 0;
  behind_type = 1;
  comment = some (codes " a # b");
}

abbrev note : Entry
note = record {
  geometry = codes "way";
  name = codes "note";
  type = int4_type;
  flags = codes "delete" ∷ codes "nocolumn" ∷ [];
  behind_geometry = 0;
  behind_name = 0;
  behind_type = 0;
  comment = none;
}

name-IsValid : IsValid name
name-IsValid = record {
  geometry_plain = (refl, (refl, (refl, (refl, tt))));
  geometry_word = refl;
  name_plain = (refl, (refl, (refl, (refl, tt))));
  name_word = refl;
  not_special = refl;
  flags_plain = ((refl, (refl, (refl, (refl, (refl, (refl, tt)))))), tt);
  flags_NoComma = ((refl, (refl, (refl, (refl, (refl, (refl, tt)))))), tt);
  comment_line = (refl, (refl, (refl, (refl, (refl, (refl, tt))))));
}

note-IsValid : IsValid note
note-IsValid = record {
  geometry_plain = (refl, (refl, (refl, tt)));
  geometry_word = refl;
  name_plain = (refl, (refl, (refl, (refl, tt))));
  name_word = refl;
  not_special = refl;
  flags_plain = (
    (refl, (refl, (refl, (refl, (refl, (refl, tt)))))),
    ((refl, (refl, (refl, (refl, (refl, (refl, (refl, (refl, tt)))))))), tt),
  );
  flags_NoComma = (
    (refl, (refl, (refl, (refl, (refl, (refl, tt)))))),
    ((refl, (refl, (refl, (refl, (refl, (refl, (refl, (refl, tt)))))))), tt),
  );
  comment_line = tt;
}

abbrev files : Bytes → Option Bytes
files path = some (file_text (name ∷ note ∷ []))

parse-file_text_example :
    parse files (codes "style") column_config_parser
    ≡ ok (
        more
          (columns (name ∷ note ∷ []))
          (keys (name ∷ note ∷ []))
          (dropped (name ∷ note ∷ []))
          column_config_parser)
parse-file_text_example =
    parse-file_text files (codes "style") (name ∷ note ∷ []) column_config_parser refl refl
      (name-IsValid, (note-IsValid, tt))

parse_lines-blanks_example :
    parse_lines (codes "# keys" ∷ blanks 2 (codes "# ways") ∷ []) column_config_parser
    ≡ err unsupported_column_type
unfolding parse_lines
parse_lines-blanks_example =
    parse_lines-blanks (codes "# keys" ∷ []) [] 1 (some (codes " ways")) column_config_parser
      column_config_parser refl
