-- ===== src/T1/Ui/Session/Requests.antt =====
-- runtime.rs: the requests for a synchronization, and the power button after a wake.
use sony_prs.Base.{
  ℕ, zero, suc, ◌+◌, ◌<◌, ◌≡◌, refl, Bool, true, false, List, [], ◌∷◌, ◌++◌, Option, none, some,
  if◌then◌else◌, arith,
}
use sony_prs.T1.Ui.{UiState, RawEvent, InputSourceKind, SyncTrigger, PowerAction}
use sony_prs.T1.Ui.Input.{event_key, key_power, is_power}
use sony_prs.T1.Ui.Activate.{Outcome}
use sony_prs.T1.Ui.Keys.{observe_power, observe_power_until}
use sony_prs.T1.Ui.Observe.{observe, dispatch, observe_key, finish}
use sony_prs.T1.Ui.Session.{take_sync_trigger, woken, wake}

abbrev with_trigger : Option SyncTrigger → List SyncTrigger → List SyncTrigger
with_trigger none triggers = triggers
with_trigger (some trigger) triggers = trigger ∷ triggers

-- What so many calls of `take_sync_trigger` give.
unfoldable pub served : ℕ → UiState → List SyncTrigger
unfolding take_sync_trigger
served zero s = []
served (suc n) s = with_trigger (take_sync_trigger s).1 (served n (take_sync_trigger s).0)

-- What was requested: the synchronization after a wake, and the one by hand.
abbrev pub requested : Bool → Bool → List SyncTrigger
requested after_wake by_hand =
    (if after_wake then SyncTrigger.wake ∷ [] else [])
    ++ (if by_hand then SyncTrigger.manual ∷ [] else [])

served-nothing :
    (n : ℕ) (s : UiState)
    → s.wake_sync_requested ≡ false
    → s.sync_requested ≡ false
    → served n s ≡ []
unfolding served take_sync_trigger
served-nothing zero s h k = refl
served-nothing (suc n) s h k =
    let ih =
      served-nothing n (record s { wake_sync_requested = false; sync_requested = false }) refl
        refl in
    ground arith

-- Two or more calls of `take_sync_trigger` give each request that was made exactly once, the one of a
-- wake before the one by hand.
pub served-requested :
    (n : ℕ) (s : UiState)
    → served (suc (suc n)) s ≡ requested s.wake_sync_requested s.sync_requested
unfolding served take_sync_trigger
served-requested n s =
    let one =
      served-nothing (suc n) (record s { wake_sync_requested = false; sync_requested = false }) refl
        refl in
    let two =
      served-nothing n (record s { wake_sync_requested = false; sync_requested = false }) refl
        refl in
    let three = served-nothing n (record s { wake_sync_requested = false }) refl in ground arith

-- Handled without a power action.
abbrev IsIdle : Option Outcome → Type 0
IsIdle none = ⊥
IsIdle (some o) = o.action ≡ PowerAction.no_action

idle_outcome :
    (r : Option Outcome)
    → IsIdle r
    → (o : Outcome) × (r ≡ some o) × (o.action ≡ PowerAction.no_action)
idle_outcome none h = absurd h
idle_outcome (some o) h = (o, refl, h)

IsIdle-observe :
    (deadline later : ℕ) (source : InputSourceKind) (e : RawEvent) (s : UiState)
    → later < deadline
    → s.ignore_power_until ≡ some deadline
    → is_power source ≡ true
    → e.event_type ≡ event_key
    → e.code ≡ key_power
    → IsIdle (observe later source e s)
unfolding observe dispatch observe_key observe_power observe_power_until finish
IsIdle-observe deadline later source e s h u d t c = ground arith

-- For two seconds after a wake, an event of the power button is handled without a power action.
pub woken-observe :
    (now later : ℕ) (source : InputSourceKind) (e : RawEvent) (s : UiState)
    → later < now + 2000000
    → is_power source ≡ true
    → e.event_type ≡ event_key
    → e.code ≡ key_power
    → (o : Outcome) × (observe later source e (woken now s) ≡ some o)
      × (o.action ≡ PowerAction.no_action)
unfolding woken wake
woken-observe now later source e s h d t c =
    idle_outcome (observe later source e (woken now s))
      (IsIdle-observe (now + 2000000) later source e (woken now s) h refl d t c)
