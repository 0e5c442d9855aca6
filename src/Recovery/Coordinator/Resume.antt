-- ===== src/Recovery/Coordinator/Resume.antt =====
-- The single-use guard of the resume token.
use ibctl.Base.{ℕ, ◌≡◌, inl, inr, ◌↔◌, some, arith, List, Option-cases}
use ibctl.Base.Text.{text_eq→eq, text_eq_self}
use ibctl.Recovery.Decision.{ResumeToken, resume_to_aggressive}
use ibctl.Recovery.Disk.{Fs, Fault}
use ibctl.Recovery.Coordinator.{Platform, RecoveryCoordinator, apply, hash_token, err, token_replay}

module _ {Zoned Timestamp : Type 0} (sys : Platform Zoned Timestamp) where
  -- The replay guard remembers one hash: a resume with a token is refused as a replay exactly when
  -- the token hashes to what the last accepted token hashed to.
  token_replay_iff :
      (c : RecoveryCoordinator Zoned Timestamp) (wall : Zoned) (mono : ℕ)
      (token : ResumeToken Timestamp) (faults : List Fault) (fs : Fs)
      → ((apply sys c resume_to_aggressive wall mono (some token) faults fs).0.result
          ≡ err token_replay)
        ↔ (c.resumed_by_token_hash ≡ some (hash_token sys token))
  unfolding apply
  token_replay_iff c wall mono token faults fs =
      let hash = hash_token sys token in
      elim (Option-cases c.resumed_by_token_hash) [
        | inl e ↦ ((λ h. ground arith), λ h. ground arith)
        | inr (old, e) ↦
            ((λ h. ground (arith, text_eq→eq old hash)), (λ h. ground (arith, text_eq_self hash)))
      ]
