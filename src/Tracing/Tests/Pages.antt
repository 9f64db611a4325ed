-- ===== src/Tracing/Tests/Pages.antt =====
-- The page with a policy that watches the network, and with a form without a name.
use k8s_sentinel.Base.{
  Text, lit, ◌===◌, trim, includes, starts_with, List, [], ◌∷◌, Option, none, some, Json, str,
  object, get, ◌≡◌, ◌⊎◌, refl, ◌>>=◌, member, Bool, true, false,
}
use k8s_sentinel.Tracing.Reader.{yaml_to_form}
use k8s_sentinel.Tracing.Page.{
  as_form, failure, Stored, Page, empty_form, tell, send, opened, handle_save, Event, act,
  press_open, press_apply, write_yaml, settled, policy_arrived, run,
}
use k8s_sentinel.Tracing.Page.Guarded.{on_screen, handle_save-told}
use k8s_sentinel.Tracing.Tests.{policy}

-- Whatever the text, the document has one kprobe, of a network call.
abbrev network_policy : Text → Option Json
network_policy raw = some (policy (object ((lit "call", str (lit "tcp_connect")) ∷ []) ∷ []))

abbrev stored : Stored
stored = record { mode = lit "Monitoring"; created_by = lit "admin"; raw_yaml = lit "kind: x" }

-- A reader that never throws, and one that throws at every text.
abbrev returning : Text → Bool
returning raw = false

abbrev throwing : Text → Bool
throwing raw = true

abbrev start : Page
start = opened (some (lit "p")) none true as_form none

abbrev pressing : List Event
pressing = settled ∷ act press_open ∷ act (write_yaml (lit "kind: y") true) ∷ act press_apply ∷ []

abbrev blank_page : Page
blank_page = record start { form = empty_form }

handle_save-told_example :
    ((why : Text) × (handle_save blank_page ≡ tell (failure why) blank_page))
    ⊎ (handle_save blank_page ≡ send (on_screen blank_page) blank_page)
handle_save-told_example = handle_save-told blank_page [] refl

-- A policy whose request failed is shown as an empty form, which Apply would write over it.
abbrev failed_page : Page
failed_page = run network_policy returning (settled ∷ []) start

failed_page-form :
    (failed_page.page_loading ≡ false)
    × (failed_page.mode ≡ as_form)
    × (failed_page.form ≡ empty_form)
unfolding run opened
failed_page-form = (refl, refl, refl)

-- Where the reader throws, the page stays in the empty form, which Apply would write over the policy.
thrown-form :
    ((policy_arrived network_policy throwing stored start).mode ≡ as_form)
    × ((policy_arrived network_policy throwing stored start).form ≡ empty_form)
unfolding policy_arrived opened lit ◌===◌ trim includes starts_with get ◌>>=◌ yaml_to_form member
thrown-form = (refl, refl)
