-- ===== src/Dialogs/Orders/Permits.antt =====
-- What lets a button that transmits orders be clicked, and that the actions of
-- ibctl/src/handlers/ibc_compat.rs ask for it.
use ibctl.Base.{◌≡◌, refl, Bool, true, false, ◌&&◌, ◌||◌, Option, none, some, arith, any}
use ibctl.Base.Text.{Text, codes}
use ibctl.Base.Words.{Casing, contains, starts_with}
use ibctl.Machine.Json.{Json}
use ibctl.Dialogs.{Request, clicked}
use ibctl.Dialogs.Compat.{
  dialog_text_blob, or_null, CryptoOrderDecision, DialogPolicy, DialogAction, manual, transmit,
  cancel, classify_access, crypto_action, classify_order, classify_notice, classify_lower,
  classify_window,
}

-- The policy lets a dialog of this title, in lower case, transmit.
abbrev pub permits : DialogPolicy → Text → Bool
permits policy title =
    (contains title (codes "cryptocurrency order confirmation")
      && elim policy.crypto_order_decision [ transmit ↦ true | _ ↦ false ])
    || policy.bypass_order_precautions
    || policy.allow_blind_trading

-- A click on a button whose label says Transmit.
unfoldable pub transmits : Request → Bool
unfolding contains starts_with
transmits (clicked _ label) = contains label (codes "Transmit")
transmits _ = false

-- Such a click is permitted.
abbrev pub IsPermitted : DialogPolicy → Text → Request → Type 0
IsPermitted policy title r = transmits r ≡ true → permits policy title ≡ true

-- Some button of the action says Transmit.
abbrev pub offers : Option DialogAction → Bool
offers none = false
offers (some a) = any (λ label. transmits (clicked 0 label)) a.buttons

offers-crypto_action :
    (decision : CryptoOrderDecision)
    → offers (crypto_action decision) ≡ elim decision [ transmit ↦ true | _ ↦ false ]
unfolding transmits
offers-crypto_action manual = refl
offers-crypto_action transmit = refl
offers-crypto_action cancel = refl

offers-classify_access : (title text : Text) → offers (classify_access title text) ≡ false
unfolding classify_access transmits
offers-classify_access title text = ground arith

offers-classify_order :
    (policy : DialogPolicy) (title text : Text)
    → offers (classify_order policy title text) ≡ true
    → permits policy title ≡ true
unfolding classify_order transmits
offers-classify_order policy title text h =
    ground
      (arith, offers-classify_access title text, offers-crypto_action policy.crypto_order_decision)

offers-classify_notice :
    (policy : DialogPolicy) (title text : Text)
    → offers (classify_notice policy title text) ≡ true
    → permits policy title ≡ true
unfolding classify_notice transmits
offers-classify_notice policy title text h = ground (arith, offers-classify_order policy title text)

offers-classify_lower :
    (policy : DialogPolicy) (title text : Text)
    → offers (classify_lower policy title text) ≡ true
    → permits policy title ≡ true
unfolding classify_lower transmits
offers-classify_lower policy title text h = ground (arith, offers-classify_notice policy title text)

pub offers-classify_window :
    (casing : Casing) (policy : DialogPolicy) (title : Text) (dump : Option Json)
    → offers (classify_window casing policy title dump) ≡ true
    → permits policy (casing.to_lowercase title) ≡ true
unfolding classify_window
offers-classify_window casing policy title dump =
    offers-classify_lower policy (casing.to_lowercase title)
      (casing.to_lowercase (dialog_text_blob title (or_null dump)))
