-- ===== src/Machine/Handlers/Confirmed.antt =====
-- The positive confirmation by which ibctl/src/state_machine/mod.rs takes a session for ready.
use ibctl.Base.{
  ℕ, ◌≡◌, ◌≢◌, refl, subst, Bool, true, false, Option, none, some, List, [], ◌∷◌, arith,
  Option-cases, inl, inr, ◌⊎◌, find, if◌then◌else◌,
}
use ibctl.Base.Text.{Text}
use ibctl.Base.Words.{Casing}
use ibctl.Machine.State.{State, configuring_api, connected, reconnecting_session, waiting_for2fa}
use ibctl.Machine.Lifecycle.{StateMachine}
use ibctl.Machine.Json.{Json, components_indicate_disconnected, components_confirm_authenticated}
use ibctl.Machine.Handlers.{
  Agent, Settings, Tick, WindowInfo, is_relogin_title, goes, check_blocking_dialog, blocking_dialog,
  classify_blocking_dialog,
}
use ibctl.Machine.Handlers.TwoFactor.{some_gateway}
use ibctl.Machine.Handlers.Popups.{
  ApiStatus, ready, not_ready, inspect, api_status, still_waiting, do_wait_for_api_ready,
}
use ibctl.Machine.Handlers.Recover.{
  confirms, is_relogin_dialog, relogin, verify_relogin, fallback, do_reconnecting_session,
  or_no_windows,
}

-- What a blocking dialog leads to.
abbrev pub IsBlocking : State → Type 0
IsBlocking s = (s ≡ reconnecting_session) ⊎ (s ≡ waiting_for2fa)

some_injective : (a b : State) → some a ≡ some b → a ≡ b
some_injective a b e = cc

module _ (casing : Casing) where
  inspect_lem :
      (dump : ℕ → Option Json) (d : Bool) (windows : List WindowInfo)
      → inspect casing dump d windows ≡ ready
      → some_gateway casing (confirms casing) dump windows ≡ true
  unfolding inspect some_gateway components_confirm_authenticated
  inspect_lem dump d [] h = ground arith
  inspect_lem dump d (w ∷ ws) h = elim (Option-cases (dump w.id)) [
    | inl e ↦ ground (arith, e, h, inspect_lem dump d ws)
    | inr (c, e) ↦ ground (
      arith,
      e,
      h,
      inspect_lem dump d ws,
      inspect_lem dump (components_indicate_disconnected casing c) ws,
    )
  ]

  classify_lem :
      (title : Text) (s : State) → classify_blocking_dialog casing title ≡ some s → IsBlocking s
  unfolding classify_blocking_dialog
  classify_lem title s h = ground (arith, h)

  same_or :
      (b : Bool) (s t : State)
      → IsBlocking s
      → some (if b then reconnecting_session else s) ≡ some t
      → IsBlocking t
  same_or true s t p h = inl (cc)
  same_or false s t p h = subst IsBlocking (some_injective s t h) p

  blocking_lem :
      (windows : List WindowInfo) (s : State)
      → blocking_dialog casing windows ≡ some s
      → IsBlocking s
  unfolding blocking_dialog
  blocking_lem [] s h = ground arith
  blocking_lem (w ∷ ws) s h = elim (Option-cases (classify_blocking_dialog casing w.title)) [
    | inl e ↦ blocking_lem ws s (ground (arith, e, h))
    | inr (t, e) ↦
        same_or (is_relogin_title casing w.title) t s (classify_lem w.title t e)
          (ground (arith, e, h))
  ]

  check_lem :
      (windows : Option (List WindowInfo)) (s : State)
      → check_blocking_dialog casing windows ≡ some s
      → IsBlocking s
  unfolding check_blocking_dialog
  check_lem none s h = ground arith
  check_lem (some windows) s h = blocking_lem windows s h

  -- The windows listed hold a Gateway window without text fields that says the API server is connected.
  abbrev pub Confirms : Agent → Type 0
  Confirms agent =
      (windows : List WindowInfo) × (agent.list_windows 1 ≡ some windows)
      × (some_gateway casing (confirms casing) (agent.dump_components 0) windows ≡ true)

  module _ (agent : Agent) where
    windows_lem : api_status casing agent (agent.list_windows 1) ≡ ready → Confirms agent
    unfolding api_status
    windows_lem h = elim (Option-cases (agent.list_windows 1)) [
      | inl e ↦ ground (arith, e, h)
      | inr (windows, e) ↦
          (windows, e, inspect_lem (agent.dump_components 0) false windows (ground (arith, e, h)))
    ]

    listed_lem :
        some_gateway casing
            (confirms casing)
            (agent.dump_components 0)
            (or_no_windows (agent.list_windows 1))
          ≡ true
        → Confirms agent
    unfolding some_gateway
    listed_lem h = elim (Option-cases (agent.list_windows 1)) [
      | inl e ↦ ground (arith, e, h)
      | inr (windows, e) ↦ (windows, e, ground (arith, e, h))
    ]

  module _ {Zoned : Type 0} (agent : Agent) (config : Settings) (now : ℕ) where
    waiting_ne :
        (d : Bool) (m : StateMachine Zoned)
        → (still_waiting casing config now d m).next ≢ some configuring_api
    unfolding still_waiting
    waiting_ne d m = λ e. ground (arith, e)

    status_lem :
        (status : ApiStatus) (m : StateMachine Zoned)
        → (elim status as (λ (a : ApiStatus). Tick Zoned) [
          | ready ↦ goes m configuring_api
          | not_ready disconnected ↦ still_waiting casing config now disconnected m
        ]).next
          ≡ some configuring_api
        → status ≡ ready
    status_lem ready m h = refl
    status_lem (not_ready d) m h = absurd (waiting_ne d m h)

    ready_lem :
        (m : StateMachine Zoned)
        → (do_wait_for_api_ready casing agent config now m).next ≡ some configuring_api
        → api_status casing agent (agent.list_windows 1) ≡ ready
    unfolding do_wait_for_api_ready
    ready_lem m h = elim (Option-cases (check_blocking_dialog casing (agent.list_windows 0))) [
      | inl e ↦ status_lem (api_status casing agent (agent.list_windows 1)) m (ground (arith, e, h))
      | inr (s, e) ↦ ground (arith, e, h, check_lem (agent.list_windows 0) s e)
    ]

    fallback_ne : (m : StateMachine Zoned) → some (fallback casing agent config m) ≢ some connected
    unfolding fallback
    fallback_ne m = λ e. ground (arith, e)

    verify_lem :
        (m : StateMachine Zoned)
        → (verify_relogin casing agent m).next ≡ some connected
        → some_gateway casing
            (confirms casing)
            (agent.dump_components 0)
            (or_no_windows (agent.list_windows 1))
          ≡ true
    unfolding verify_relogin
    verify_lem m h = ground (arith, h)

    relogin_lem :
        (m : StateMachine Zoned) (windows : Option (List WindowInfo))
        → (relogin casing agent m windows).next ≡ some connected
        → (verify_relogin casing agent m).next ≡ some connected
    unfolding relogin
    relogin_lem m none h = ground (arith, h)
    relogin_lem m (some windows) h = elim (Option-cases (find (is_relogin_dialog casing) windows)) [
      | inl e ↦ ground (arith, e, h)
      | inr (w, e) ↦ ground (arith, e, h)
    ]

    reconnected_lem :
        (m : StateMachine Zoned)
        → (do_reconnecting_session casing agent config now m).next ≡ some connected
        → (relogin casing agent m (agent.list_windows 0)).next ≡ some connected
    unfolding do_reconnecting_session
    reconnected_lem m h = ground (arith, h, fallback_ne m)

    -- A step of do_wait_for_api_ready goes to ConfiguringApi, and a step of do_reconnecting_session to
    -- Connected, only if a listed Gateway window was seen in that step without text fields and with
    -- the API server's row saying connected.
    pub session_ready-Confirms :
        (m : StateMachine Zoned)
        → ((do_wait_for_api_ready casing agent config now m).next ≡ some configuring_api)
          ⊎ ((do_reconnecting_session casing agent config now m).next ≡ some connected)
        → Confirms agent
    session_ready-Confirms m (inl h) = windows_lem agent (ready_lem m h)
    session_ready-Confirms m (inr h) =
        listed_lem agent (verify_lem m (relogin_lem m (agent.list_windows 0) (reconnected_lem m h)))
