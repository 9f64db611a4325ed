-- ===== src/Vap/Tests/Pages.antt =====
-- The page with the policy of the other examples.
use k8s_sentinel.Base.{Text, lit, [], ◌∷◌, some, none, Option, Json, ◌≡◌, refl, true, false}
use k8s_sentinel.PlainYaml.{plain_yaml}
use k8s_sentinel.Vap.Reopen.Faithful.{WritesSameSpec}
use k8s_sentinel.Vap.Editing.{
  set_name, set_max_replicas, select_rule_type, filled_builder, blank_builder, handler_accepts,
}
use k8s_sentinel.Vap.{replica}
use k8s_sentinel.Vap.Reopen.Metadata.{HasPlainMetadata}
use k8s_sentinel.Vap.Page
use k8s_sentinel.Vap.Page.Saving.{open_edit-handle_builder_apply}
use k8s_sentinel.Vap.Page.Screens.{ShowsAt, screen, screen-route_effect}
use k8s_sentinel.Vap.Tests.Policies.{team_policy, read_text, saved_policy, opened_policy}

abbrev Plain : Type 0
Plain = Page.Page (Option Json)

-- A replica policy, named and bounded.
abbrev typed : Plain
typed =
    Page.run plain_yaml read_text
      (Page.edit_form (set_name (lit "few"))
        ∷ Page.edit_form (select_rule_type replica)
        ∷ Page.edit_form (set_max_replicas 0)
        ∷ Page.loaded [] []
        ∷ [])
      (Page.opened plain_yaml read_text (Page.new Page.policy true))

abbrev start : Plain
start = Page.mounted plain_yaml read_text Page.list

team-accepts : handler_accepts (filled_builder team_policy) ≡ true
unfolding handler_accepts filled_builder lit
team-accepts = refl

open_edit-handle_builder_apply_example :
    (doc : Json) × (saved_policy ≡ some doc)
    × HasPlainMetadata doc
    × ((written : Text) × ((Page.handle_builder_apply plain_yaml read_text (
            Page.open_edit plain_yaml read_text Page.policy
              (b't' ∷ lit "eams")
              saved_policy
              start)).sent
          ≡ Page.update Page.policy (b't' ∷ lit "eams") (read_text written) ∷ start.sent)
        × WritesSameSpec plain_yaml read_text written doc)
open_edit-handle_builder_apply_example =
    open_edit-handle_builder_apply plain_yaml read_text 116 (lit "eams") saved_policy start
      team_policy opened_policy team-accepts

abbrev listed : Plain
listed = record start {
  policies = record { name = lit "teams"; raw_yaml = saved_policy } ∷ [];
  lists_loaded = true;
}

start-closed :
    (start.show_builder ≡ false) × (start.show_binding_builder ≡ false) × (start.editor ≡ none)
unfolding Page.mounted
start-closed = (refl, refl, refl)

screen-route_effect_example :
    ShowsAt plain_yaml read_text
      (Page.edit Page.policy (lit "teams"))
      listed
      (screen (Page.route_effect plain_yaml read_text (Page.edit Page.policy (lit "teams")) listed))
screen-route_effect_example =
    screen-route_effect plain_yaml read_text (Page.edit Page.policy (lit "teams")) listed
      start-closed

abbrev writing : Plain
writing = record start {
  route = Page.new Page.policy false;
  builder = record blank_builder { name = lit "typed" };
}

-- The first answer of the lists empties a form that is being filled in.
writing-reset : (Page.load_succeeded plain_yaml read_text [] [] writing).builder ≡ blank_builder
unfolding Page.load_succeeded Page.mounted
writing-reset = refl
