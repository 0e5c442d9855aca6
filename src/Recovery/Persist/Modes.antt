-- ===== src/Recovery/Persist/Modes.antt =====
-- The live and the paper coordinator keep apart: their files never touch each other.
use ibctl.Base.{◌≡◌, refl, ◌≢◌, inl, inr, Bool, false, List, arith, Option-cases}
use ibctl.Base.Text.{Text, codes, text_eq}
use ibctl.Recovery.Decision.{given_up, as_str, Phase}
use ibctl.Recovery.Disk.{Fs, Fault, tmp_name}
use ibctl.Recovery.Disk.Laws.{atomic_write-all_or_nothing}
use ibctl.Recovery.Persist.{
  RecoveryPersistedState, Json, marker_path, sidecar_path, load, save, mark_sidecar, write_marker,
}

pub data Mode : Type 0 where
  live paper : Mode

-- `recovery_mode_tag`
abbrev pub mode_tag : Mode → Text
mode_tag live = codes "live"
mode_tag paper = codes "paper"

-- A file that is none of the four that a save of mode `m` works on.
abbrev Apart : Text → Text → Type 0
Apart m file =
    (text_eq file (marker_path m) ≡ false)
    × (text_eq file (sidecar_path m) ≡ false)
    × (text_eq file (tmp_name (marker_path m)) ≡ false)
    × (text_eq file (tmp_name (sidecar_path m)) ≡ false)

marker-Apart : (m n : Mode) → m ≢ n → Apart (mode_tag m) (marker_path (mode_tag n))
unfolding marker_path sidecar_path text_eq
marker-Apart live live h = absurd (h refl)
marker-Apart live paper h = (refl, refl, refl, refl)
marker-Apart paper live h = (refl, refl, refl, refl)
marker-Apart paper paper h = absurd (h refl)

sidecar-Apart : (m n : Mode) → m ≢ n → Apart (mode_tag m) (sidecar_path (mode_tag n))
unfolding marker_path sidecar_path text_eq
sidecar-Apart live live h = absurd (h refl)
sidecar-Apart live paper h = (refl, refl, refl, refl)
sidecar-Apart paper live h = (refl, refl, refl, refl)
sidecar-Apart paper paper h = absurd (h refl)

mark_sidecar-frame :
    (m : Text) (phase : Phase) (faults : List Fault) (fs : Fs) (file : Text)
    → Apart m file
    → (mark_sidecar m phase faults fs).1 file ≡ fs file
unfolding mark_sidecar
mark_sidecar-frame m phase faults fs file h =
    ground (arith, atomic_write-all_or_nothing (sidecar_path m) (as_str given_up) faults fs file)

module _ {Zoned Timestamp : Type 0} (json : Json Zoned Timestamp) where
  write_marker-frame :
      (m : Text) (s : RecoveryPersistedState Zoned Timestamp) (faults : List Fault) (fs : Fs)
      (file : Text)
      → Apart m file
      → (write_marker json m s faults fs).1 file ≡ fs file
  unfolding write_marker
  write_marker-frame m s faults fs file h = elim (Option-cases (json.encode s)) [
    | inl e ↦ ground arith
    | inr (t, e) ↦ ground (arith, atomic_write-all_or_nothing (marker_path m) t faults fs file)
  ]

  save-frame :
      (m : Text) (s : RecoveryPersistedState Zoned Timestamp) (faults : List Fault) (fs : Fs)
      (file : Text)
      → Apart m file
      → (save json m s faults fs).1 file ≡ fs file
  unfolding save
  save-frame m s faults fs file h =
      let (r1, fs1, faults1) = mark_sidecar m s.phase faults fs in
      ground (
        arith,
        mark_sidecar-frame m s.phase faults fs file h,
        write_marker-frame m s faults1 fs1 file h,
      )

  -- A save of one trading mode, whatever goes wrong in it, leaves every load of the other mode as
  -- it was.
  pub save-other_mode :
      (m n : Mode) (s : RecoveryPersistedState Zoned Timestamp) (faults : List Fault) (fs : Fs)
      (force_reset : Bool)
      → m ≢ n
      → load json (save json (mode_tag m) s faults fs).1 (mode_tag n) force_reset
        ≡ load json fs (mode_tag n) force_reset
  unfolding load
  save-other_mode m n s faults fs force_reset h = ground (
    arith,
    save-frame (mode_tag m) s faults fs (marker_path (mode_tag n)) (marker-Apart m n h),
    save-frame (mode_tag m) s faults fs (sidecar_path (mode_tag n)) (sidecar-Apart m n h),
  )
