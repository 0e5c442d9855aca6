-- ===== src/Dialogs/ApiConfig/Screen.antt =====
-- ibctl/src/handlers/api_config.rs: the dialog is opened, swept for others and closed.
use ibctl.Base.{
  ℕ, zero, suc, ◌+◌, ◌-◌, ◌/◌, Bool, Option, none, some, List, [], ◌∷◌, find, leb, length, ◌==◌,
  if◌then◌else◌,
}
use ibctl.Base.Int.{ℤ, pos, negsuc}
use ibctl.Base.Text.{Text, codes}
use ibctl.Base.Words.{Casing, contains, contains_any}
use ibctl.Machine.Events.{EventBounds}
use ibctl.Machine.Handlers.{WindowInfo}
use ibctl.Dialogs.{
  AgentClient, Act, clicked, menu_clicked, clicked_at, pure, ◌>>=◌, ◌>>◌, ask, agreed, list_windows,
}

-- `width / 2` in i32 rounds to 0.
abbrev half : ℤ → ℤ
half (pos n) = pos (n / 2)
half (negsuc n) = if leb 1 n then negsuc ((n + 1) / 2 - 1) else pos 0

abbrev pub half_or : ℕ → (EventBounds → ℤ) → Option EventBounds → ℤ
half_or n size none = pos n
half_or n size (some b) = half (size b)

abbrev pub or_no_windows : Option (List WindowInfo) → List WindowInfo
or_no_windows none = []
or_no_windows (some ws) = ws

unfoldable pub click_center : AgentClient → WindowInfo → Act (Option Bool)
unfolding ask
click_center client w =
    ask client
      (clicked_at w.id (half_or 350 (λ b. b.width) w.bounds) (half_or 275 (λ b. b.height) w.bounds))

-- Yes and OK in every window but this one.
unfoldable pub sweep : AgentClient → ℕ → List WindowInfo → Act (Unit {0})
unfolding ask ◌>>=◌
sweep client cid [] = pure tt
sweep client cid (w ∷ ws) =
    let rest = sweep client cid ws in
    let buttons =
      ask client (clicked w.id (codes "Yes")) >> ask client (clicked w.id (codes "OK")) >> rest in
    if w.id == cid then rest else buttons

unfoldable pub dismiss_popups : AgentClient → ℕ → Act (Unit {0})
unfolding sweep list_windows ◌>>=◌
dismiss_popups client cid = list_windows client >>= λ ws. sweep client cid (or_no_windows ws)

abbrev pub found_or : Act (Option WindowInfo) → Option WindowInfo → Act (Option WindowInfo)
found_or rest none = rest
found_or rest (some w) = pure (some w)

-- The whole path of the menu, or else its first part.
unfoldable pub open_menu : AgentClient → ℕ → Act (Unit {0})
unfolding ask ◌>>=◌
open_menu client id = do
  a ← ask client (menu_clicked id (codes "Configure/Settings"))
  (if agreed a then pure tt else (ask client (menu_clicked id (codes "Configure")) >> pure tt))

module _ (casing : Casing) where
  abbrev pub is_configuration : WindowInfo → Bool
  is_configuration w = contains (casing.to_lowercase w.title) (codes "configuration")

  abbrev pub is_gateway : WindowInfo → Bool
  is_gateway w =
      contains_any (casing.to_lowercase w.title) (codes "ibkr gateway" ∷ codes "ib gateway" ∷ [])

  -- The polls that are left for the dialog to appear.
  unfoldable pub poll : AgentClient → ℕ → Act (Option WindowInfo)
  unfolding list_windows ◌>>=◌ contains
  poll client zero = pure none
  poll client (suc n) =
      let rest = poll client n in
      list_windows client >>= λ ws. found_or rest (find is_configuration (or_no_windows ws))

  -- The attempts that are left to open it.
  unfoldable pub open_config : AgentClient → WindowInfo → ℕ → Act (Option WindowInfo)
  unfolding poll click_center open_menu ask ◌>>=◌
  open_config client main zero = pure none
  open_config client main (suc n) =
      let rest = open_config client main n in
      open_menu client main.id >> poll client 20 >>= found_or (click_center client main >> rest)

unfoldable pub click_each : AgentClient → Text → List WindowInfo → Act (Unit {0})
unfolding ask ◌>>=◌
click_each client label [] = pure tt
click_each client label (w ∷ ws) =
    let rest = click_each client label ws in ask client (clicked w.id label) >> rest

-- OK in every window until one is left.
unfoldable pub sweep_rest : AgentClient → ℕ → Act (Unit {0})
unfolding list_windows click_each ◌>>=◌
sweep_rest client zero = pure tt
sweep_rest client (suc n) =
    let rest = sweep_rest client n in
    list_windows client >>= λ ws.
    if leb (length (or_no_windows ws)) 1
    then pure tt
    else (click_each client (codes "OK") (or_no_windows ws) >> rest)

abbrev pub click_first_window : AgentClient → List WindowInfo → Act (Unit {0})
click_first_window client [] = pure tt
click_first_window client (w ∷ _) = click_center client w >> pure tt

unfoldable pub save_and_close : AgentClient → ℕ → Act (Unit {0})
unfolding ask list_windows sweep_rest click_center ◌>>=◌
save_and_close client cid = do
  ask client (clicked cid (codes "Apply"))
  ask client (clicked cid (codes "OK"))
  sweep_rest client 3
  ws ← list_windows client
  click_first_window client (or_no_windows ws)
