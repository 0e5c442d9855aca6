-- ===== src/Dialogs/Manual.antt =====
-- ibctl/src/handlers/mod.rs: a dialog that the compatibility handler leaves to the operator goes on
-- to the handlers after it.
use ibctl.Base.{◌≡◌, refl, ◌∙◌, true, false, ◌&&◌, none, some, List, [], ◌∷◌, any, take, arith}
use ibctl.Base.Text.{codes}
use ibctl.Base.Words.{Casing, contains, contains_any}
use ibctl.Machine.Handlers.{WindowInfo, handled, not_applicable}
use ibctl.Dialogs.{
  AgentClient, Desk, DialogHandler, clicked, dumped, noted, ◌>>=◌, ask, click_first,
  dump_components,
}
use ibctl.Dialogs.Notices.{names_gateway, is_large, handle_paper}
use ibctl.Dialogs.Compat.{DialogPolicy, policy_from_env, classify_window, handle_compat}
use ibctl.Config.Data.{Config}
use ibctl.Dialogs.Registry.{Outside, with_defaults, dispatch}

module _ (casing : Casing) (client : AgentClient) (w : WindowInfo) (h : DialogHandler)
    (hs : List DialogHandler) (d : Desk) where
  dispatch_skips :
      h.can_handle d.login_submitted (casing.to_lowercase w.title) w ≡ false
      → dispatch casing client w (h ∷ hs) d ≡ dispatch casing client w hs d
  unfolding dispatch
  dispatch_skips e = rw e

  -- A handler that can handle the window and declines it leaves it to the next ones.
  dispatch_declines :
      (d' : Desk)
      → h.can_handle d.login_submitted (casing.to_lowercase w.title) w ≡ true
      → h.handle client w d ≡ (not_applicable, d')
      → dispatch casing client w (h ∷ hs) d ≡ dispatch casing client w hs d'
  unfolding dispatch ◌>>=◌
  dispatch_declines d' e r = rw e (rw r refl)

  dispatch_takes :
      (d' : Desk)
      → h.can_handle d.login_submitted (casing.to_lowercase w.title) w ≡ true
      → h.handle client w d ≡ (handled, d')
      → dispatch casing client w (h ∷ hs) d ≡ (handled, d')
  unfolding dispatch ◌>>=◌
  dispatch_takes d' e r = rw e (rw r refl)

handle_compat_declines :
    (casing : Casing) (policy : DialogPolicy) (client : AgentClient) (w : WindowInfo) (d : Desk)
    → classify_window casing policy w.title (client.dumps d.log w.id) ≡ none
    → handle_compat casing policy client w d ≡ (not_applicable, noted (dumped w.id) d)
unfolding handle_compat dump_components ◌>>=◌
handle_compat_declines casing policy client w d e = rw e

handle_paper_ok :
    (client : AgentClient) (w : WindowInfo) (d : Desk)
    → client.agrees d.log (clicked w.id (codes "I understand and accept")) ≡ some false
    → client.agrees
        (clicked w.id (codes "I understand and accept") ∷ d.log)
        (clicked w.id (codes "OK"))
      ≡ some true
    → handle_paper client w d ≡ (
      handled,
      noted (clicked w.id (codes "OK")) (noted (clicked w.id (codes "I understand and accept")) d),
    )
unfolding handle_paper click_first ask ◌>>=◌
handle_paper_ok client w d e f = rw (e, f)

-- A window with a warning in its title that no handler before ibc_compat.rs takes, that is no large
-- Gateway, no configuration and no prompt for an incoming connection, and that the policy leaves to
-- the operator, is accepted all the same: a button OK, where there is none that says I understand
-- and accept, is clicked, and the window counts as handled.
pub manual_warning-accepted :
    (out : Outside) (cfg : Config) (client : AgentClient) (w : WindowInfo) (d : Desk)
    → let title = out.casing.to_lowercase w.title in
      let asked = dumped w.id ∷ d.log in
      contains title (codes "warning") ≡ true
      → contains title (codes "configuration") ≡ false
      → (names_gateway title && is_large w.bounds) ≡ false
      → any (λ h. h.can_handle d.login_submitted title w) (take 6 (with_defaults out cfg)) ≡ false
      → contains_any title (
          codes "accept incoming connection"
          ∷ codes "api connection"
          ∷ codes "incoming connection"
          ∷ [])
        ≡ false
      → classify_window out.casing (policy_from_env out.env) w.title (client.dumps d.log w.id)
        ≡ none
      → client.agrees asked (clicked w.id (codes "I understand and accept")) ≡ some false
      → client.agrees
          (clicked w.id (codes "I understand and accept") ∷ asked)
          (clicked w.id (codes "OK"))
        ≡ some true
      → dispatch out.casing client w (with_defaults out cfg) d ≡ (
        handled,
        record d {
          log = clicked w.id (codes "OK") ∷ clicked w.id (codes "I understand and accept") ∷ asked;
        },
      )
unfolding with_defaults
manual_warning-accepted out cfg client w d warning configuration large earlier incoming declined
      refused agreed =
    let d' = noted (dumped w.id) d in
    dispatch_skips out.casing client w _ _ d (ground arith)
    ∙ dispatch_skips out.casing client w _ _ d (ground arith)
    ∙ dispatch_skips out.casing client w _ _ d (ground arith)
    ∙ dispatch_skips out.casing client w _ _ d (ground arith)
    ∙ dispatch_skips out.casing client w _ _ d (ground arith)
    ∙ dispatch_skips out.casing client w _ _ d (ground arith)
    ∙ dispatch_declines out.casing client w _ _ d d' (ground arith)
        (handle_compat_declines out.casing (policy_from_env out.env) client w d declined)
    ∙ dispatch_skips out.casing client w _ _ d' incoming
    ∙ dispatch_takes out.casing client w _ _ d' _ (ground arith)
        (handle_paper_ok client w d' refused agreed)
