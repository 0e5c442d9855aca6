-- ===== src/Recovery/Coordinator/History.antt =====
-- A coordinator over its whole life: ticks, dwell successes, I/O errors, deaths inside a write, and
-- restarts that boot from what the disk holds.
use ibctl.Base.{
  ℕ, ◌≡◌, refl, ◌⊎◌, inl, inr, Bool, Option, none, some, arith, List, [], ◌∷◌, Option-cases, ◌∙◌,
  subst,
}
use ibctl.Base.Text.{Text}
use ibctl.Recovery.Decision.{RecoveryConfig, ResumeToken}
use ibctl.Recovery.Disk.{Fs, File, missing, unreadable, Fault, holds}
use ibctl.Recovery.Persist.{
  IsFaithful, RecoveryPersistedState, marker_path, load, loaded, defaulted,
  refused_given_up_auto_reset, RecoveryLoadOutcome,
}
use ibctl.Recovery.Persist.Crash.{save-marker}
use ibctl.Recovery.Coordinator.{
  Platform, RecoveryCoordinator, AppliedAction, Applied, apply, tick, record_success,
  persisted_state, boot, booted, read_force_reset_env, persist, ApplyResult, died,
}
use ibctl.Recovery.Coordinator.Invariant.{Inv, DiskInv, tick-Inv, record_success-Inv}

pub data Event (Zoned Timestamp : Type 0) : Type 0 where
  ticks : Zoned → ℕ → Bool → Option (ResumeToken Timestamp) → ℕ → Event Zoned Timestamp
  succeeds : Zoned → ℕ → Event Zoned Timestamp
  restarts : Option Text → Zoned → ℕ → Event Zoned Timestamp

-- The coordinator (none while the process is dead), the disk and the faults to come.
pub record Life (Zoned Timestamp : Type 0) : Type 0 where
  pub running : Option (RecoveryCoordinator Zoned Timestamp)
  pub fs : Fs
  pub faults : List Fault

abbrev survivor :
    {Z T A : Type 0} → Applied Z T A → ApplyResult A → Option (RecoveryCoordinator Z T)
survivor after died = none
survivor after _ = some after.coord

module _ {Zoned Timestamp : Type 0} (sys : Platform Zoned Timestamp) (mode : Text)
    (config : RecoveryConfig) where
  abbrev outcome : {A : Type 0} → Applied Zoned Timestamp A × Fs × List Fault → Life Zoned Timestamp
  outcome (after, fs, faults) = record {
    running = survivor after after.result;
    fs = fs;
    faults = faults;
  }

  -- A panic ends the process too.
  pub step_running :
      Event Zoned Timestamp
      → RecoveryCoordinator Zoned Timestamp
      → Life Zoned Timestamp
      → Life Zoned Timestamp
  step_running (ticks wall mono cold token streak) c l =
      elim (tick sys c wall mono cold token streak l.faults l.fs) [
        | none ↦ record l { running = none }
        | some r ↦ outcome r
      ]
  step_running (succeeds wall mono) c l = outcome (record_success sys c wall mono l.faults l.fs)
  step_running (restarts env wall mono) c l = record l {
    running = some (boot sys l.fs mode config env wall mono).0;
  }

  pub step_dead : Event Zoned Timestamp → Life Zoned Timestamp → Life Zoned Timestamp
  step_dead (restarts env wall mono) l = record l {
    running = some (boot sys l.fs mode config env wall mono).0;
  }
  step_dead _ l = l

  pub step : Event Zoned Timestamp → Life Zoned Timestamp → Life Zoned Timestamp
  step e l = elim l.running [ none ↦ step_dead e l | some c ↦ step_running e c l ]

  pub live : List (Event Zoned Timestamp) → Life Zoned Timestamp → Life Zoned Timestamp
  live [] l = l
  live (e ∷ es) l = live es (step e l)

  -- A life that keeps the invariant, in memory and on disk.
  abbrev RunningInv : Option (RecoveryCoordinator Zoned Timestamp) → Type 0
  RunningInv none = Unit {0}
  RunningInv (some c) = Inv c × (c.mode ≡ mode)

  pub record LifeInv (l : Life Zoned Timestamp) : Type 0 where
    pub memory : RunningInv l.running
    pub disk : DiskInv sys mode l.fs

  load-loaded :
      (fs : Fs) (force : Bool) (s : RecoveryPersistedState Zoned Timestamp)
      → load sys.json fs mode force ≡ loaded s
      → (t : Text) × (fs (marker_path mode) ≡ holds t) × (sys.json.decode t ≡ some s)
  unfolding load
  load-loaded fs force s h = found (fs (marker_path mode)) refl
    where
      found :
          (f : File)
          → fs (marker_path mode) ≡ f
          → (t : Text) × (fs (marker_path mode) ≡ holds t) × (sys.json.decode t ≡ some s)
      found missing e = absurd (ground arith)
      found unreadable e = absurd (ground arith)
      found (holds raw) e = (raw, e, ground arith)

  booted-Inv :
      (fs : Fs) (force : Bool) (wall : Zoned) (mono : ℕ)
      → DiskInv sys mode fs
      → (o : RecoveryLoadOutcome Zoned Timestamp) → load sys.json fs mode force ≡ o
      → Inv (booted sys mode config o wall mono)
  unfolding booted
  booted-Inv fs force wall mono d (loaded s) h =
      let (t, p, q) = load-loaded fs force s h in ground (arith, d t s p q)
  booted-Inv fs force wall mono d (defaulted _) h = ground arith
  booted-Inv fs force wall mono d (refused_given_up_auto_reset _) h = ground arith

  boot-Inv :
      (fs : Fs) (env : Option Text) (wall : Zoned) (mono : ℕ)
      → DiskInv sys mode fs
      → Inv (boot sys fs mode config env wall mono).0
  unfolding boot
  boot-Inv fs env wall mono d = booted-Inv fs (read_force_reset_env env) wall mono d _ refl

  boot-mode :
      (fs : Fs) (env : Option Text) (wall : Zoned) (mono : ℕ)
      → (boot sys fs mode config env wall mono).0.mode ≡ mode
  unfolding boot
  boot-mode fs env wall mono = ground arith

  persist-DiskInv :
      (c : RecoveryCoordinator Zoned Timestamp) (faults : List Fault) (fs : Fs)
      → IsFaithful sys.json
      → c.mode ≡ mode
      → Inv c
      → DiskInv sys mode fs
      → DiskInv sys mode (persist sys c faults fs).1
  unfolding persist persisted_state
  persist-DiskInv c faults fs faithful m v d t s p q =
      elim (save-marker sys.json c.mode (persisted_state c) faults fs) [
        | inl same ↦ d t s (ground arith) q
        | inr (t', e, now) ↦ ground (arith, faithful.decode-encode (persisted_state c) t' e)
      ]

  tick-disk :
      (c : RecoveryCoordinator Zoned Timestamp) (wall : Zoned) (mono : ℕ) (cold : Bool)
      (token : Option (ResumeToken Timestamp)) (streak : ℕ) (faults : List Fault) (fs fs' : Fs)
      (rest : List Fault) (after : Applied Zoned Timestamp AppliedAction)
      → tick sys c wall mono cold token streak faults fs ≡ some (after, fs', rest)
      → (after.coord.mode ≡ c.mode) × ((fs' ≡ fs) ⊎ (fs' ≡ (persist sys after.coord faults fs).1))
  unfolding tick apply
  tick-disk c wall mono cold token streak faults fs fs' rest after h = ground arith

  record_success-disk :
      (c : RecoveryCoordinator Zoned Timestamp) (wall : Zoned) (mono : ℕ) (faults : List Fault)
      (fs : Fs)
      → let (after, fs', _) = record_success sys c wall mono faults fs in
        (after.coord.mode ≡ c.mode) × ((fs' ≡ fs) ⊎ (fs' ≡ (persist sys after.coord faults fs).1))
  unfolding record_success
  record_success-disk c wall mono faults fs = ground arith

  -- What a call leaves is a life that keeps the invariant.
  call-LifeInv :
      (A : Type 0) (after : Applied Zoned Timestamp A) (fs fs' : Fs) (faults rest : List Fault)
      → IsFaithful sys.json
      → Inv after.coord
      → after.coord.mode ≡ mode
      → DiskInv sys mode fs
      → (fs' ≡ fs) ⊎ (fs' ≡ (persist sys after.coord faults fs).1)
      → LifeInv (outcome (after, fs', rest))
  call-LifeInv A after fs fs' faults rest faithful v m d disk = record {
    memory = ground arith;
    disk = elim disk [
      | inl same ↦ rw same d
      | inr saved ↦ rw saved (persist-DiskInv after.coord faults fs faithful m v d)
    ];
  }

  step_dead-LifeInv :
      (e : Event Zoned Timestamp) (l : Life Zoned Timestamp) → LifeInv l → LifeInv (step_dead e l)
  unfolding step_dead
  step_dead-LifeInv (restarts env wall mono) l v = record {
    memory = (boot-Inv l.fs env wall mono v.disk, boot-mode l.fs env wall mono);
    disk = v.disk;
  }
  step_dead-LifeInv _ l v = v

  step_running-LifeInv :
      (e : Event Zoned Timestamp) (c : RecoveryCoordinator Zoned Timestamp)
      (l : Life Zoned Timestamp)
      → IsFaithful sys.json
      → Inv c
      → c.mode ≡ mode
      → DiskInv sys mode l.fs
      → LifeInv (step_running e c l)
  unfolding step_running
  step_running-LifeInv (restarts env wall mono) c l faithful v m d = record {
    memory = (boot-Inv l.fs env wall mono d, boot-mode l.fs env wall mono);
    disk = d;
  }
  step_running-LifeInv (succeeds wall mono) c l faithful v m d =
      let after = record_success sys c wall mono l.faults l.fs in
      let (mode_kept, disk) = record_success-disk c wall mono l.faults l.fs in
      call-LifeInv (Unit {0}) after.0 l.fs after.1 l.faults after.2 faithful
        (record_success-Inv sys c wall mono l.faults l.fs v) (mode_kept ∙ m) d disk
  step_running-LifeInv (ticks wall mono cold token streak) c l faithful v m d =
      elim (Option-cases (tick sys c wall mono cold token streak l.faults l.fs)) [
        | inl e ↦ rw (e, step_running) (record { memory = tt; disk = d })
        | inr ((after, fs', rest), e) ↦
            let (mode_kept, disk) =
              tick-disk c wall mono cold token streak l.faults l.fs fs' rest after e in
            rw (e, step_running)
              (call-LifeInv AppliedAction after l.fs fs' l.faults rest faithful
                (tick-Inv sys c wall mono cold token streak l.faults l.fs fs' rest after v e)
                (mode_kept ∙ m) d disk)
      ]

  step-LifeInv :
      (e : Event Zoned Timestamp) (l : Life Zoned Timestamp)
      → IsFaithful sys.json
      → LifeInv l
      → LifeInv (step e l)
  unfolding step
  step-LifeInv e l faithful v = elim (Option-cases l.running) [
    | inl dead ↦ rw (dead, step) (step_dead-LifeInv e l v)
    | inr (c, up) ↦
        let memory : Inv c × (c.mode ≡ mode) = subst RunningInv up v.memory in
        rw (up, step) (step_running-LifeInv e c l faithful memory.0 memory.1 v.disk)
  ]

  -- From a directory whose main marker, if it can be read, keeps the stamps to their phases, every
  -- life (ticks, dwell successes, I/O errors, deaths inside a write, restarts) keeps the invariant in
  -- memory and on disk.
  pub live-LifeInv :
      (es : List (Event Zoned Timestamp)) (l : Life Zoned Timestamp)
      → IsFaithful sys.json
      → LifeInv l
      → LifeInv (live es l)
  unfolding live
  live-LifeInv [] l faithful v = v
  live-LifeInv (e ∷ es) l faithful v =
      live-LifeInv es (step e l) faithful (step-LifeInv e l faithful v)
