-- ===== src/Discovery/Polling.antt =====
-- layout/DiscoveryProvider.tsx: `load`, which numbers its requests, and the handling of responses.
use k8s_sentinel.Base.{
  ◌==◌, if◌then◌else◌, ◌&&◌, not, Bool, true, false, List, [], ◌∷◌, Option, none, some, ℕ, ◌+◌, ◌<◌,
  ◌≤◌, ◌≡◌, refl, arith, ◌∙◌, All,
}
use k8s_sentinel.Discovery.{PodProfile}

-- `seq`, `cancelled`, whether the timer runs, and the profiles shown.
pub record Poller : Type 0 where
  pub seq : ℕ
  pub cancelled : Bool
  pub profiles : List PodProfile

-- `const mySeq = ++seq`: the number of the request is the new `seq`.
unfoldable pub load : Poller → Poller
load p = record p { seq = p.seq + 1 }

-- The response to the request `my_seq`; `none` is a request that failed.
unfoldable pub respond : ℕ → Option (List PodProfile) → Poller → Poller
respond my_seq none p = p
respond my_seq (some profiles) p =
    if not p.cancelled && (my_seq == p.seq) then record p { profiles = profiles } else p

unfoldable pub cleanup : Poller → Poller
cleanup p = record p { cancelled = true }

-- `clearProfiles`, once the server has answered: `false` is a request that failed.
unfoldable pub clear_profiles : Bool → Poller → Poller
clear_profiles true p = record p { profiles = [] }
clear_profiles false p = p

pub data Action : Type 0 where
  loading cleaned : Action
  response : ℕ → Option (List PodProfile) → Action
  cleared : Bool → Action

unfoldable pub step : Action → Poller → Poller
unfolding load respond cleanup clear_profiles
step loading p = load p
step cleaned p = cleanup p
step (response n r) p = respond n r p
step (cleared done) p = clear_profiles done p

unfoldable pub run : List Action → Poller → Poller
unfolding step
run [] p = p
run (a ∷ as') p = run as' (step a p)

-- No action but a response or a deletion that went through changes what is shown.
abbrev IsSilent : ℕ → Action → Type 0
IsSilent n loading = Unit
IsSilent n cleaned = Unit
IsSilent n (response m r) = m ≤ n
IsSilent n (cleared true) = ⊥
IsSilent n (cleared false) = Unit

abbrev pub AllStale : ℕ → List Action → Type 0
AllStale n [] = Unit
AllStale n (a ∷ as') = IsSilent n a × AllStale n as'

seq-step : (a : Action) (p : Poller) → p.seq ≤ (step a p).seq
unfolding step
seq-step loading p = omega arith
seq-step cleaned p = omega arith
seq-step (response n none) p = omega arith
seq-step (response n (some r)) p = ground arith
seq-step (cleared true) p = omega arith
seq-step (cleared false) p = omega arith

step_stale :
    (n : ℕ) (a : Action) (p : Poller) → n < p.seq → IsSilent n a → (step a p).profiles ≡ p.profiles
unfolding step
step_stale n loading p h s = refl
step_stale n cleaned p h s = refl
step_stale n (response m none) p h s = refl
step_stale n (response m (some r)) p h s = ground arith
step_stale n (cleared true) p h s = absurd s
step_stale n (cleared false) p h s = refl

-- Once a newer request is on its way, the responses to the older ones change nothing that is shown,
-- in whatever order they come and however often the profiles are loaded in between.
pub run_stale :
    (n : ℕ) (as' : List Action) (p : Poller)
    → n < p.seq
    → AllStale n as'
    → (run as' p).profiles ≡ p.profiles
unfolding run
run_stale n [] p h s = refl
run_stale n (a ∷ as') p h (s, ss) =
    run_stale n as' (step a p) (omega (arith, seq-step a p)) ss ∙ step_stale n a p h s

abbrev IsPolling : Action → Type 0
IsPolling (cleared done) = ⊥
IsPolling loading = Unit
IsPolling cleaned = Unit
IsPolling (response n r) = Unit

step_cancelled :
    (a : Action) (p : Poller)
    → p.cancelled ≡ true
    → IsPolling a
    → ((step a p).profiles ≡ p.profiles) × ((step a p).cancelled ≡ true)
unfolding step
step_cancelled loading p h s = (refl, h)
step_cancelled cleaned p h s = (refl, refl)
step_cancelled (response n none) p h s = (refl, h)
step_cancelled (response n (some r)) p h s = ground arith
step_cancelled (cleared done) p h s = absurd s

-- After the provider is unmounted no response is shown, whichever request it answers.
run_cancelled :
    (as' : List Action) (p : Poller)
    → p.cancelled ≡ true
    → All IsPolling as'
    → (run as' p).profiles ≡ p.profiles
unfolding run
run_cancelled [] p h s = refl
run_cancelled (a ∷ as') p h (s, ss) =
    let (same, still) = step_cancelled a p h s in run_cancelled as' (step a p) still ss ∙ same

-- A response that comes when a newer request than its own was sent; nothing is cleared.
abbrev IsLate : ℕ → Action → Type 0
IsLate n loading = Unit
IsLate n cleaned = Unit
IsLate n (response m r) = m < n
IsLate n (cleared true) = ⊥
IsLate n (cleared false) = Unit

-- Each response is late when it comes.
abbrev pub AllLate : List Action → Poller → Type 0
AllLate [] p = Unit
AllLate (a ∷ as') p = IsLate p.seq a × AllLate as' (step a p)
