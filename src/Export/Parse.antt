-- ===== src/Export/Parse.antt =====
-- A reader of CSV in which every field is quoted, and that it reads back what was written.
use k8s_sentinel.Base.{
  Bool-cases, ==_iff, append-nil, is_empty, inl, inr, All, Text, join, ◌==◌, false, List, [], ◌∷◌,
  ◌++◌, map, Option, none, some, ◌≡◌, refl, ap, ◌∙◌, append_assoc, if◌then◌else◌, sym,
}
use k8s_sentinel.Events.{DisplayEvent}
use k8s_sentinel.Export.{
  double_quotes, escape, comma, crlf, csv_row, download_csv, columns, to_row, export_csv,
}

abbrev pub Table : Type 0
Table = List (List Text)

-- The rows of a CSV text whose fields are all quoted, as RFC 4180 reads it; `none` if it is not one.
unfoldable mutual
  pub read_before : Text → List Text → Table → Option Table
  read_before [] row rows = none
  read_before (c ∷ s) row rows = if c == b'"' then read_inside s [] row rows else none

  pub read_inside : Text → Text → List Text → Table → Option Table
  read_inside [] cell row rows = none
  read_inside (c ∷ s) cell row rows =
      if c == b'"' then read_behind s cell row rows else read_inside s (cell ++ c ∷ []) row rows

  pub read_behind : Text → Text → List Text → Table → Option Table
  read_behind [] cell row rows = some (rows ++ (row ++ cell ∷ []) ∷ [])
  read_behind (c ∷ s) cell row rows =
      if c == b'"'
      then read_inside s (cell ++ b'"' ∷ []) row rows
      else if c == b','
      then read_before s (row ++ cell ∷ []) rows
      else if c == 13
      then read_newline s (rows ++ (row ++ cell ∷ []) ∷ [])
      else none

  pub read_newline : Text → Table → Option Table
  read_newline [] rows = none
  read_newline (c ∷ s) rows = if c == 10 then read_before s [] rows else none

pub read_csv : Text → Option Table
read_csv s = read_before s [] []

-- Inside the quotes the escaped field is read back.
read_inside-double_quotes :
    (v s cell : Text) (row : List Text) (rows : Table)
    → read_inside (double_quotes v ++ b'"' ∷ s) cell row rows ≡ read_behind s (cell ++ v) row rows
unfolding read_inside double_quotes
read_inside-double_quotes [] s cell row rows = rw (append-nil cell)
read_inside-double_quotes (c ∷ v) s cell row rows = elim (Bool-cases (c == b'"')) [
  | inl quote ↦
      let same : c ≡ b'"' = (==_iff c b'"').0 quote in
      rw quote (
        read_inside-double_quotes v s (cell ++ b'"' ∷ []) row rows
        ∙ rw (append_assoc cell (b'"' ∷ []) v, same))
  | inr other ↦
      rw (other, other)
        (read_inside-double_quotes v s (cell ++ c ∷ []) row rows
          ∙ rw (append_assoc cell (c ∷ []) v))
]

read_before-escape :
    (v s : Text) (row : List Text) (rows : Table)
    → read_before (escape v ++ s) row rows ≡ read_behind s v row rows
unfolding read_before escape
read_before-escape v s row rows =
    ap (λ t. read_inside t [] row rows) (append_assoc (double_quotes v) (b'"' ∷ []) s)
    ∙ read_inside-double_quotes v s [] row rows

read_behind-comma :
    (cell s : Text) (row : List Text) (rows : Table)
    → read_behind (b',' ∷ s) cell row rows ≡ read_before s (row ++ cell ∷ []) rows
unfolding read_behind
read_behind-comma cell s row rows = refl

-- A row is read field by field; `k` is what becomes of the whole row.
read_before-csv_row :
    (k : List Text → Option Table) (s : Text) (rows : Table)
    → ((cell : Text) (row : List Text) → read_behind s cell row rows ≡ k (row ++ cell ∷ []))
    → (f : Text) (fs row : List Text)
    → read_before (csv_row (f ∷ fs) ++ s) row rows ≡ k (row ++ f ∷ fs)
unfolding csv_row join
read_before-csv_row k s rows h f [] row = read_before-escape f s row rows ∙ h f row
read_before-csv_row k s rows h f (g ∷ fs) row =
    ap (λ t. read_before t row rows) (append_assoc (escape f) (comma ++ csv_row (g ∷ fs)) s)
    ∙ read_before-escape f (b',' ∷ (csv_row (g ∷ fs) ++ s)) row rows
    ∙ read_behind-comma f (csv_row (g ∷ fs) ++ s) row rows
    ∙ read_before-csv_row k s rows h g fs (row ++ f ∷ [])
    ∙ ap k (append_assoc row (f ∷ []) (g ∷ fs))

abbrev pub IsFilled : List Text → Type 0
IsFilled r = is_empty r ≡ false

-- The rows of a table that is not empty, each with a field at least, behind those read so far.
read_before-join :
    (r : List Text) (rs rows : Table)
    → IsFilled r
    → All IsFilled rs
    → read_before (join crlf (map csv_row (r ∷ rs))) [] rows ≡ some (rows ++ r ∷ rs)
unfolding join
read_before-join [] rs rows h hs = cc
read_before-join (f ∷ fs) [] rows h hs =
    ap (λ t. read_before t [] rows) (sym (append-nil (csv_row (f ∷ fs))))
    ∙ read_before-csv_row (λ row. some (rows ++ row ∷ [])) [] rows
        (λ cell row. unfold read_behind in refl) f fs []
read_before-join (f ∷ fs) ([] ∷ rs) rows h (h', hs) = cc
read_before-join (f ∷ fs) ((g ∷ gs) ∷ rs) rows h (h', hs) =
    read_before-csv_row
      (λ row. read_before (join crlf (map csv_row ((g ∷ gs) ∷ rs))) [] (rows ++ row ∷ []))
      (crlf ++ join crlf (map csv_row ((g ∷ gs) ∷ rs))) rows
      (λ cell row. unfold read_behind in refl) f fs []
    ∙ read_before-join (g ∷ gs) rs (rows ++ (f ∷ fs) ∷ []) h' hs
    ∙ ap some (append_assoc rows ((f ∷ fs) ∷ []) ((g ∷ gs) ∷ rs))

-- A reader of quoted CSV gets back exactly the headers and rows that were written, whatever quotes,
-- commas and line ends the fields hold, if there are headers and no row is empty.
read_csv-download_csv :
    (headers : List Text) (rows : Table)
    → IsFilled headers
    → All IsFilled rows
    → read_csv (download_csv headers rows) ≡ some (headers ∷ rows)
unfolding read_csv download_csv
read_csv-download_csv headers rows h hs = read_before-join headers rows [] h hs

map-to_row :
    (events : List DisplayEvent)
    → map (λ e. csv_row (to_row e)) events ≡ map csv_row (map to_row events)
map-to_row [] = refl
map-to_row (e ∷ es) = ap (◌∷◌ (csv_row (to_row e))) (map-to_row es)

to_row-IsFilled : (events : List DisplayEvent) → All IsFilled (map to_row events)
unfolding to_row
to_row-IsFilled [] = tt
to_row-IsFilled (e ∷ es) = (refl, to_row-IsFilled es)

-- The event export is the generic one over its thirteen columns, and reads back as a header row and
-- one row for each event.
pub read_csv-export_csv :
    (events : List DisplayEvent)
    → (export_csv events ≡ download_csv columns (map to_row events))
      × (read_csv (export_csv events) ≡ some (columns ∷ map to_row events))
unfolding export_csv download_csv
read_csv-export_csv events =
    let same : export_csv events ≡ download_csv columns (map to_row events) =
      ap (λ l. join crlf (csv_row columns ∷ l)) (map-to_row events) in
    (
      same,
      ap read_csv same
          ∙ read_csv-download_csv columns (map to_row events) refl (to_row-IsFilled events),
    )
