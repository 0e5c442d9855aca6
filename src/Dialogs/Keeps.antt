-- ===== src/Dialogs/Keeps.antt =====
-- Actions that keep what holds of the log: a rule for each way to build an action.
use ibctl.Base.{ℕ, Bool, true, false, Option, none, some, List, [], ◌∷◌, All, if◌then◌else◌}
use ibctl.Base.Text.{Text}
use ibctl.Machine.Handlers.{Dispatched}
use ibctl.Dialogs.{
  Request, AgentClient, Desk, Act, clicked, dumped, windows_listed, pure, ◌>>=◌, ask, list_windows,
  dump_components, submitted, click_first, typed_or, agreed,
}

-- What holds of the log holds after the action too.
pub record Keeps (I : List Request → Type 0) {A : Type 0} (m : Act A) : Type 0 where
  pub at : (d : Desk) → I d.log → I (m d).1.log

-- It holds with this request added.
abbrev pub Grows : (List Request → Type 0) → Request → Type 0
Grows I r = (log : List Request) → I log → I (r ∷ log)

module _ {I : List Request → Type 0} where
  pub Keeps-pure : {A : Type 0} (a : A) → Keeps I (pure a)
  Keeps-pure a = record { at = λ d h. h }

  pub Keeps-bind :
      {A B : Type 0} (m : Act A) (f : A → Act B)
      → Keeps I m
      → ((a : A) → Keeps I (f a))
      → Keeps I (m >>= f)
  unfolding ◌>>=◌
  Keeps-bind m f km kf = record { at = λ d h. (kf (m d).0).at (m d).1 (km.at d h) }

  pub Keeps-if :
      {A : Type 0} (b : Bool) (m n : Act A) → Keeps I m → Keeps I n → Keeps I (if b then m else n)
  Keeps-if true m n km kn = km
  Keeps-if false m n km kn = kn

  pub Keeps-ask : (client : AgentClient) (r : Request) → Grows I r → Keeps I (ask client r)
  unfolding ask
  Keeps-ask client r p = record { at = λ d h. p d.log h }

  pub Keeps-list_windows :
      (client : AgentClient) → Grows I windows_listed → Keeps I (list_windows client)
  unfolding list_windows
  Keeps-list_windows client p = record { at = λ d h. p d.log h }

  pub Keeps-dump_components :
      (client : AgentClient) (id : ℕ) → Grows I (dumped id) → Keeps I (dump_components client id)
  unfolding dump_components
  Keeps-dump_components client id p = record { at = λ d h. p d.log h }

  pub Keeps-submitted : (b : Bool) → Keeps I (submitted b)
  unfolding submitted
  Keeps-submitted b = record { at = λ d h. h }

  pub Keeps-click_first :
      (client : AgentClient) (id : ℕ) (labels : List Text)
      → All (λ label. Grows I (clicked id label)) labels
      → Keeps I (click_first client id labels)
  unfolding click_first
  Keeps-click_first client id [] h = Keeps-pure false
  Keeps-click_first client id (label ∷ labels) h =
      Keeps-bind _ _ (Keeps-ask client (clicked id label) h.0)
        (λ a. Keeps-if (agreed a) _ _ (Keeps-pure true) (Keeps-click_first client id labels h.1))

  pub Keeps-typed_or :
      (message : Text) (next : Act Dispatched) (a : Option Bool)
      → Keeps I next
      → Keeps I (typed_or message next a)
  Keeps-typed_or message next none k = Keeps-pure _
  Keeps-typed_or message next (some false) k = Keeps-pure _
  Keeps-typed_or message next (some true) k = k

pub ruleset keeps_rules = (
  Keeps-pure, Keeps-bind, Keeps-if, Keeps-ask, Keeps-list_windows, Keeps-dump_components,
  Keeps-submitted, Keeps-typed_or,
)
