-- ===== src/Hstore/Reads.antt =====
-- A whole hstore is read pair by pair, by `while (has_next()) get_next()`.
use cerepso.Base.{
  ◌+◌, ◌≤◌, ◌<◌, Bytes, true, false, [], ◌∷◌, ◌++◌, List, length, length-append, drop-append, ◌≡◌,
  ap, arith, append-nil, append_assoc, ok, subst,
}
use cerepso.Hstore.{get_next, h_store_parser, HStoreParser, has_next, size_mod}
use cerepso.Hstore.RoundTrip.{quoted, pair_text, loop-pair_text, loop_comma}

-- The loop that starts in state `p` ends without an exception and yields these pairs.
pub data Reads : HStoreParser → List (Bytes × Bytes) → Type 0 where
  stop : {p : HStoreParser} → has_next p ≡ false → Reads p []
  more :
      {p q : HStoreParser} {t : Bytes × Bytes} {ts : List (Bytes × Bytes)}
      → has_next p ≡ true
      → get_next p ≡ ok (t, q)
      → Reads q ts
      → Reads p (t ∷ ts)

-- Each pair with a comma in front.
unfoldable pub later_text : List (Bytes × Bytes) → Bytes
later_text [] = []
later_text (t ∷ ts) = b',' ∷ (pair_text t ++ later_text ts)

unfoldable pub tags_text : List (Bytes × Bytes) → Bytes
unfolding later_text
tags_text [] = []
tags_text (t ∷ ts) = pair_text t ++ later_text ts

pair_text_ge : (t : Bytes × Bytes) → 6 ≤ length (pair_text t)
unfolding pair_text
pair_text_ge (k, v) = omega (
  arith,
  length-append (quoted k) (b'"' ∷ b'=' ∷ b'>' ∷ b'"' ∷ (quoted v ++ b'"' ∷ [])),
  length-append (quoted v) (b'"' ∷ []),
)

abbrev at : Bytes → Bytes → HStoreParser
at done rest = record { string_repr = done ++ rest; current_position = length done }

has_next-at_end : (done : Bytes) → has_next (at done []) ≡ false
unfolding has_next
has_next-at_end done = ground (arith, ap length (append-nil done))

has_next_before :
    (done rest : Bytes)
    → 7 ≤ length rest
    → length (done ++ rest) < size_mod
    → has_next (at done rest) ≡ true
unfolding has_next
has_next_before done rest h b = ground (arith, length-append done rest)

get_next_comma :
    (done rest : Bytes) (t : Bytes × Bytes)
    → get_next (at done (b',' ∷ (pair_text t ++ rest)))
      ≡ ok (
        t,
        record {
          string_repr = done ++ b',' ∷ (pair_text t ++ rest);
          current_position = length done + 1 + length (pair_text t);
        },
      )
unfolding get_next
get_next_comma done rest (k, v) = rw (
  drop-append done (b',' ∷ (pair_text (k, v) ++ rest)),
  loop_comma (length done) (pair_text (k, v) ++ rest),
  loop-pair_text (length done + 1) k v rest,
)

regrouped :
    (done : Bytes) (t : Bytes × Bytes) (rest : Bytes)
    → at (done ++ b',' ∷ pair_text t) rest ≡ record {
      string_repr = done ++ b',' ∷ (pair_text t ++ rest);
      current_position = length done + 1 + length (pair_text t);
    }
regrouped done t rest = λ i. record {
  string_repr = append_assoc done (b',' ∷ pair_text t) rest i;
  current_position = moved i;
}
  where
    moved : length (done ++ b',' ∷ pair_text t) ≡ length done + 1 + length (pair_text t)
    moved = omega (arith, length-append done (b',' ∷ pair_text t))

Reads-later :
    (ts : List (Bytes × Bytes)) (done : Bytes)
    → length (done ++ later_text ts) < size_mod
    → Reads (at done (later_text ts)) ts
unfolding later_text
Reads-later [] done h = stop (has_next-at_end done)
Reads-later (t ∷ ts) done h =
    more (has_next_before done _ long h) (get_next_comma done (later_text ts) t) (
      subst (λ p. Reads p ts) (regrouped done t (later_text ts))
        (Reads-later ts (done ++ b',' ∷ pair_text t)
          (omega (arith, ap length (append_assoc done (b',' ∷ pair_text t) (later_text ts))))))
  where
    long : 7 ≤ length (b',' ∷ (pair_text t ++ later_text ts))
    long = omega (arith, pair_text_ge t, length-append (pair_text t) (later_text ts))

has_next_first :
    (text : Bytes) → 6 ≤ length text → length text < size_mod → has_next (at [] text) ≡ true
unfolding has_next
has_next_first text h b = ground arith

get_next_first :
    (t : Bytes × Bytes) (rest : Bytes)
    → get_next (at [] (pair_text t ++ rest)) ≡ ok (t, at (pair_text t) rest)
unfolding get_next
get_next_first (k, v) rest = rw (loop-pair_text 0 k v rest) (ground arith)

-- Of any list of pairs in quotes, joined by commas, the loop reads every pair, in order and
-- byte for byte, and then stops. The text is no longer than a `size_t` counts.
pub h_store_parser-Reads :
    (ts : List (Bytes × Bytes))
    → length (tags_text ts) < size_mod
    → Reads (h_store_parser (tags_text ts)) ts
unfolding h_store_parser tags_text
h_store_parser-Reads [] h = stop (has_next-at_end [])
h_store_parser-Reads (t ∷ ts) h =
    more (has_next_first _ long h) (get_next_first t (later_text ts))
      (Reads-later ts (pair_text t) h)
  where
    long : 6 ≤ length (pair_text t ++ later_text ts)
    long = omega (arith, pair_text_ge t, length-append (pair_text t) (later_text ts))
