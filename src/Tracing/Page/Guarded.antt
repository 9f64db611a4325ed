-- ===== src/Tracing/Page/Guarded.antt =====
-- pages/PolicyEditPage.tsx: what the page never sends, and what it says where it sends nothing.
use k8s_sentinel.Base.{
  Text, trim, is_empty, not, Bool, true, false, All, Option, none, some, if_cases, if◌then◌else◌,
  Json, as_text, ◌≡◌, ◌⊎◌, inl, inr, refl,
}
use k8s_sentinel.Tracing.Page.{
  as_yaml, failure, Payload, from_form, from_yaml, Request, create, update, Page, is_form,
  action_of, tell, send, save_form, save_yaml, handle_save, press_open, Event, act, arrived,
}

abbrev pub payload_of : Request → Payload
payload_of (create payload) = payload
payload_of (update n payload ns) = payload

-- A request that has the YAML of the editor, not what the form makes of it.
abbrev pub SendsYaml : Request → Type 0
SendsYaml r = (t : Text) × (payload_of r ≡ from_yaml t)

abbrev pub is_arrival : Event → Bool
is_arrival (arrived rec) = true
is_arrival _ = false

-- A click on the button that opens the form.
abbrev pub opens_form : Event → Bool
opens_form (act press_open) = true
opens_form _ = false

-- What is on the screen.
abbrev pub on_screen : Page → Payload
on_screen p =
    if is_form p.mode then from_form p.form (action_of p.policy_mode) else from_yaml p.yaml_content

abbrev Held : Page → Type 0
Held p = (p.mode ≡ as_yaml) × All SendsYaml p.sent

-- A page that has the button as before.
abbrev Keeps : Page → Page → Type 0
Keeps p q = q.form_capable ≡ p.form_capable

module _ (load : Text → Option Json) (throws : Text → Bool) where
  abbrev Quiet : Event → Page → Type 0
  Quiet e p = (opens_form e ≡ false) ⊎ (p.form_capable ≡ false)

-- What pressing Apply may come to: a reason, or a request with that payload.
abbrev pub Outcome : Page → Payload → Page → Type 0
Outcome p payload q = ((why : Text) × (q ≡ tell (failure why) p)) ⊎ (q ≡ send payload p)

save_form-Outcome :
    (o : Option Text) (p : Page) (name : Text)
    → o ≡ some name
    → Outcome p (from_form p.form (action_of p.policy_mode)) (save_form o p)
save_form-Outcome none p name e = cc
save_form-Outcome (some n) p name e =
    if_cases (Outcome p (from_form p.form (action_of p.policy_mode))) (is_empty (trim n)) _ _
      (λ _. inl (_, refl)) (λ _. inr refl)

save_yaml-Outcome : (p : Page) → Outcome p (from_yaml p.yaml_content) (save_yaml p)
unfolding save_yaml
save_yaml-Outcome p =
    if_cases (Outcome p (from_yaml p.yaml_content)) (is_empty (trim p.yaml_content)) _ _
      (λ _. inl (_, refl))
      (λ _.
        if_cases (Outcome p (from_yaml p.yaml_content)) (not p.yaml_valid) _ _ (λ _. inl (_, refl))
          (λ _. inr refl))

Outcome-if :
    (b : Bool) (p : Page) (x y : Payload) (s t : Page)
    → Outcome p x s
    → Outcome p y t
    → Outcome p (if b then x else y) (if b then s else t)
Outcome-if true p x y s t h k = h
Outcome-if false p x y s t h k = k

-- Each press of Apply says something or sends something: where the name in the form is a text, the page
-- tells why nothing was sent, and is unchanged otherwise, or one request is sent, with what is on the
-- screen.
pub handle_save-told :
    (p : Page) (name : Text)
    → as_text p.form.name ≡ some name
    → ((why : Text) × (handle_save p ≡ tell (failure why) p))
      ⊎ (handle_save p ≡ send (on_screen p) p)
unfolding handle_save
handle_save-told p name e =
    Outcome-if (is_form p.mode) p _ _ _ _ (save_form-Outcome (as_text p.form.name) p name e)
      (save_yaml-Outcome p)
