-- ===== src/Cnp/Render/Keys.antt =====
-- utils/cnpForm.ts: which properties the spec of a generated policy has.
use k8s_sentinel.Base.{
  Text, lit, ◌===◌, is_empty, Object, get, assign, if◌then◌else◌, ◌&&◌, not, ◌⊎◌, Bool, true, false,
  [], ◌∷◌, Option, none, some, Json, bool, array, object, trim, str, ◌≡◌, refl, Bool-cases, inl,
  inr,
}
use k8s_sentinel.Cnp.{Mode, blacklist, whitelist, Direction, ingress, egress, Section, FormInput}
use k8s_sentinel.Cnp.Validate.{is_blacklist}
use k8s_sentinel.Cnp.Labels.{subject_match_labels}
use k8s_sentinel.Cnp.Render.{
  section_rules, direction_key, add_section, add_sections, section_key, comment_part, deny_part,
  spec_of, match_labels,
}

abbrev pub same_mode : Mode → Mode → Bool
same_mode blacklist blacklist = true
same_mode whitelist whitelist = true
same_mode _ _ = false

-- The rules that a section writes in a mode: none unless it is in that mode and has rules.
abbrev pub written : Mode → Direction → Section → Option Json
written m d s =
    if is_empty s.rules
    then none
    else if same_mode m s.mode
    then some (array (section_rules d s))
    else none

-- Whether a section is a blacklist with rules, where the direction is not to deny by default.
abbrev pub is_deny_list : Section → Bool
is_deny_list s = not (is_empty s.rules) && same_mode blacklist s.mode

abbrev pub default_deny : Bool → Bool → Option Json
default_deny false false = none
default_deny true false = some (object ((lit "ingress", bool false) ∷ []))
default_deny false true = some (object ((lit "egress", bool false) ∷ []))
default_deny true true =
    some (object ((lit "ingress", bool false) ∷ (lit "egress", bool false) ∷ []))

-- The comment, if it says something.
abbrev pub described : Option Text → Option Json
described none = none
described (some c) = if is_empty (trim c) then none else some (str (trim c))

-- What each property of the spec is, in terms of the two sections.
abbrev HasKeys : Object Json → FormInput → Section → Section → Type 0
HasKeys spec f i e =
    (get (lit "endpointSelector") spec ≡ some (match_labels (subject_match_labels f)))
    × (get (lit "description") spec ≡ described f.comment)
    × (get (lit "ingress") spec ≡ written whitelist ingress i)
    × (get (lit "ingressDeny") spec ≡ written blacklist ingress i)
    × (get (lit "egress") spec ≡ written whitelist egress e)
    × (get (lit "egressDeny") spec ≡ written blacklist egress e)
    × (get (lit "enableDefaultDeny") spec ≡ default_deny (is_deny_list i) (is_deny_list e))

abbrev pub SpecKeys : Object Json → FormInput → Type 0
SpecKeys spec f = HasKeys spec f f.ingress f.egress

-- One section, by its emptiness, its mode and the rules that it writes.
abbrev step : Direction → Bool → Mode → Json → Object Json × Object Json → Object Json × Object Json
step d none_left m j (spec, off) = if none_left then (spec, off) else (
  assign (section_key d m) j spec,
  if is_blacklist m then assign (direction_key d) (bool false) off else off,
)

abbrev written_at : Bool → Mode → Mode → Json → Option Json
written_at none_left m m' j = if none_left then none else if same_mode m m' then some j else none

abbrev StepKeys :
    Object Json → Json → Option Json → (bi be : Bool) (mi me : Mode) (ji je : Json) → Type 0
StepKeys spec e description bi be mi me ji je =
    (get (lit "endpointSelector") spec ≡ some e)
    × (get (lit "description") spec ≡ description)
    × (get (lit "ingress") spec ≡ written_at bi whitelist mi ji)
    × (get (lit "ingressDeny") spec ≡ written_at bi blacklist mi ji)
    × (get (lit "egress") spec ≡ written_at be whitelist me je)
    × (get (lit "egressDeny") spec ≡ written_at be blacklist me je)
    × (get (lit "enableDefaultDeny") spec
        ≡ default_deny (not bi && same_mode blacklist mi) (not be && same_mode blacklist me))

-- What stands in front of the sections.
abbrev head_of : Json → Option Json → Object Json
head_of e none = (lit "endpointSelector", e) ∷ []
head_of e (some d) = (lit "endpointSelector", e) ∷ (lit "description", d) ∷ []

-- The sections write under their own keys only.
step-StepKeys :
    (e : Json) (description : Option Json) (bi be : Bool) (mi me : Mode) (ji je : Json)
    → StepKeys
        (deny_part (step egress be me je (step ingress bi mi ji (head_of e description, []))))
        e
        description
        bi
        be
        mi
        me
        ji
        je
unfolding deny_part section_key assign lit ◌===◌ get
step-StepKeys e none true true mi me ji je = (refl, refl, refl, refl, refl, refl, refl)
step-StepKeys e none true false mi whitelist ji je = (refl, refl, refl, refl, refl, refl, refl)
step-StepKeys e none true false mi blacklist ji je = (refl, refl, refl, refl, refl, refl, refl)
step-StepKeys e none false true whitelist me ji je = (refl, refl, refl, refl, refl, refl, refl)
step-StepKeys e none false false whitelist whitelist ji je =
    (refl, refl, refl, refl, refl, refl, refl)
step-StepKeys e none false false whitelist blacklist ji je =
    (refl, refl, refl, refl, refl, refl, refl)
step-StepKeys e none false true blacklist me ji je = (refl, refl, refl, refl, refl, refl, refl)
step-StepKeys e none false false blacklist whitelist ji je =
    (refl, refl, refl, refl, refl, refl, refl)
step-StepKeys e none false false blacklist blacklist ji je =
    (refl, refl, refl, refl, refl, refl, refl)
step-StepKeys e (some d) true true mi me ji je = (refl, refl, refl, refl, refl, refl, refl)
step-StepKeys e (some d) true false mi whitelist ji je = (refl, refl, refl, refl, refl, refl, refl)
step-StepKeys e (some d) true false mi blacklist ji je = (refl, refl, refl, refl, refl, refl, refl)
step-StepKeys e (some d) false true whitelist me ji je = (refl, refl, refl, refl, refl, refl, refl)
step-StepKeys e (some d) false false whitelist whitelist ji je =
    (refl, refl, refl, refl, refl, refl, refl)
step-StepKeys e (some d) false false whitelist blacklist ji je =
    (refl, refl, refl, refl, refl, refl, refl)
step-StepKeys e (some d) false true blacklist me ji je = (refl, refl, refl, refl, refl, refl, refl)
step-StepKeys e (some d) false false blacklist whitelist ji je =
    (refl, refl, refl, refl, refl, refl, refl)
step-StepKeys e (some d) false false blacklist blacklist ji je =
    (refl, refl, refl, refl, refl, refl, refl)

comment_part-cases :
    (c : Option Text)
    → ((comment_part c ≡ []) × (described c ≡ none))
      ⊎ ((d : Json) × (comment_part c ≡ (lit "description", d) ∷ []) × (described c ≡ some d))
comment_part-cases none = inl (refl, refl)
comment_part-cases (some c) = elim (Bool-cases (is_empty (trim c))) [
  | inl blank ↦ rw blank (inl (refl, refl))
  | inr text ↦ rw text (inr (str (trim c), refl, refl))
]

-- The spec of a policy selects the subject's labels and has the trimmed comment, if there is one, as its
-- description. It has the rules of a direction under `ingress` or `egress` if its section is a
-- whitelist, under `ingressDeny` or `egressDeny` if it is a blacklist, and no property at all for a
-- section without rules; and it has `enableDefaultDeny`, false, for the directions with a blacklist only.
pub spec_of-SpecKeys : (f : FormInput) → SpecKeys (spec_of f) f
unfolding spec_of add_sections add_section
spec_of-SpecKeys f =
    let keys = λ (d : Option Json).
      step-StepKeys (match_labels (subject_match_labels f)) d (is_empty f.ingress.rules)
        (is_empty f.egress.rules) f.ingress.mode f.egress.mode
        (array (section_rules ingress f.ingress)) (array (section_rules egress f.egress)) in
    elim (comment_part-cases f.comment) [
      | inl (e, e') ↦ rw (e, e') (keys none)
      | inr (d, e, e') ↦ rw (e, e') (keys (some d))
    ]
