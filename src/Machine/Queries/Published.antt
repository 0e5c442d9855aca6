-- ===== src/Machine/Queries/Published.antt =====
-- ibctl/src/state_machine/queries.rs and command_server.rs: what a subscriber sees of the snapshots
-- that are published. A watch channel keeps the latest one only, so some may be passed over.
use ibctl.Base.{
  ℕ, ◌+◌, ◌≤◌, ◌≡◌, refl, ap, Bool, true, false, some, List, [], ◌∷◌, map, arith, ◌==◌,
  if◌then◌else◌,
}
use ibctl.Base.Text.{Text, codes}
use ibctl.CommandServer.Connection.{QuerySnapshot, subscription, event_line}
use ibctl.Machine.Json.{Json}
use ibctl.Machine.Queries.Recovery.{Dates}
use ibctl.Machine.Queries.Publish.{View, publications, publish_snapshot}

-- The elements that the marks keep.
abbrev pub kept : {A : Type 0} → List Bool → List A → List A
kept [] xs = []
kept (mark ∷ marks) [] = []
kept (mark ∷ marks) (x ∷ xs) = let rest = kept marks xs in if mark then x ∷ rest else rest

abbrev status_event : QuerySnapshot → Text
status_event snap = event_line (codes "status") snap

module _ {Zoned Timestamp : Type 0} (dates : Dates Zoned Timestamp) (to_string : Json → Text) where
  -- A subscriber that has sent a version below those to come sends each snapshot that it sees.
  subscription-kept :
      (marks : List Bool) (sent last : ℕ) (views : List (View Zoned Timestamp))
      → sent ≤ last
      → subscription sent (map some (kept marks (publications dates to_string last views)))
        ≡ map status_event (kept marks (publications dates to_string last views))
  unfolding publications subscription publish_snapshot
  subscription-kept [] sent last views h = refl
  subscription-kept (mark ∷ marks) sent last [] h = refl
  subscription-kept (false ∷ marks) sent last (v ∷ views) h =
      subscription-kept marks sent (last + 1) views (omega arith)
  subscription-kept (true ∷ marks) sent last (v ∷ views) h =
      let fresh : (last + 1 == sent) ≡ false = ground arith in
      rw fresh (
        ap (λ lines. status_event (publish_snapshot dates to_string last v) ∷ lines)
          (subscription-kept marks (last + 1) (last + 1) views (omega arith)))

  -- A subscriber to whom the snapshot of a version was sent gets one status event for each later one
  -- that it sees, in their order, whichever of them the channel passes over.
  pub subscription-publications :
      (marks : List Bool) (last : ℕ) (views : List (View Zoned Timestamp))
      → subscription last (map some (kept marks (publications dates to_string last views)))
        ≡ map (event_line (codes "status")) (kept marks (publications dates to_string last views))
  subscription-publications marks last views = subscription-kept marks last last views (omega arith)
