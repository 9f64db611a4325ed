-- ===== src/Health.antt =====
-- utils/labelPairs.ts and utils/ingestion.ts: the rows that make a selector, and whether a source of
-- events is a problem worth showing.
pub mod Sources
mod Tests
use k8s_sentinel.Base.{
  Text, lit, ◌===◌, ===_iff, trim, lower, includes, is_empty, ltb, leb, if◌then◌else◌, ◌&&◌, ◌||◌,
  not, Bool, true, false, List, [], ◌∷◌, Object, get, assign, get-assign, Option, none, some,
  or_else, ℕ, ◌≡◌, ◌∙◌, refl, arith, ap, sym, ◌↔◌, ◌⊎◌, ◌<◌,
}

pub record LabelEntry : Type 0 where
  pub key : Text
  pub value : Text

unfoldable pub add_entry : LabelEntry → Object Text → Object Text
unfolding trim
add_entry e out =
    if not (is_empty (trim e.key)) && not (is_empty (trim e.value))
    then assign (trim e.key) (trim e.value) out
    else out

unfoldable pub add_entries : List LabelEntry → Object Text → Object Text
unfolding add_entry
add_entries [] out = out
add_entries (e ∷ es) out = add_entries es (add_entry e out)

unfoldable pub complete_pairs : List LabelEntry → Object Text
unfolding add_entries
complete_pairs entries = add_entries entries []

pub record IngestSource : Type 0 where
  pub connected : Bool
  pub consecutive_failures : ℕ
  pub last_error : Option Text

unfoldable pub is_not_detected : Option Text → Bool
unfolding lower includes
is_not_detected last_error = includes (lower (or_else last_error [])) (lit "not detected")

unfoldable pub is_ingest_problem : IngestSource → Bool
unfolding is_not_detected
is_ingest_problem s =
    not s.connected
    && (ltb 0 s.consecutive_failures || not (is_empty (or_else s.last_error [])))
    && not (is_not_detected s.last_error)

-- What one row gives to the key: both halves are filled in, and the key is that one.
abbrev pub entry_value : Text → LabelEntry → Option Text
entry_value k e =
    if is_empty (trim e.key) || is_empty (trim e.value)
    then none
    else if trim e.key === k
    then some (trim e.value)
    else none

abbrev pub after : Option Text → Option Text → Option Text
after none o = o
after (some v) o = some v

-- The value of the last row that gives one.
abbrev pub last_complete : Text → List LabelEntry → Option Text
last_complete k [] = none
last_complete k (e ∷ es) = after (last_complete k es) (entry_value k e)

after_assoc : (a b c : Option Text) → after (after a b) c ≡ after a (after b c)
after_assoc none b c = refl
after_assoc (some v) b c = refl

after-none : (a : Option Text) → after a none ≡ a
after-none none = refl
after-none (some v) = refl

get-add_entry :
    (k : Text) (e : LabelEntry) (out : Object Text)
    → get k (add_entry e out) ≡ after (entry_value k e) (get k out)
unfolding add_entry
get-add_entry k e out = ground (arith, get-assign (trim e.key) k (trim e.value) out)

get-add_entries :
    (k : Text) (es : List LabelEntry) (out : Object Text)
    → get k (add_entries es out) ≡ after (last_complete k es) (get k out)
unfolding add_entries
get-add_entries k [] out = refl
get-add_entries k (e ∷ es) out =
    get-add_entries k es (add_entry e out)
    ∙ ap (after (last_complete k es)) (get-add_entry k e out)
    ∙ sym (after_assoc (last_complete k es) (entry_value k e) (get k out))

-- The selector that is shown and saved has, for each key, the trimmed value of the last row with that
-- key whose two halves are both filled in, and no key without such a row.
pub get-complete_pairs :
    (k : Text) (es : List LabelEntry) → get k (complete_pairs es) ≡ last_complete k es
unfolding complete_pairs get
get-complete_pairs k es = get-add_entries k es [] ∙ after-none (last_complete k es)
