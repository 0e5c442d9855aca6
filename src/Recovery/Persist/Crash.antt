-- ===== src/Recovery/Persist/Crash.antt =====
-- `save` under I/O errors and a process that dies at any point, seen through the next `load`.
use ibctl.Base.{
  ◌≡◌, refl, ◌⊎◌, inl, inr, Bool, true, false, List, arith, some, ◌∙◌, append_assoc, Option-cases,
  ◌≢◌,
}
use ibctl.Base.Text.{Text, codes, text_eq, text_eq-append, trim, text_eq_self}
use ibctl.Recovery.Decision.{Phase, given_up, phase_eq, as_str}
use ibctl.Recovery.Disk.{Fs, holds, Fault, done, io_error, crashed, tmp_name}
use ibctl.Recovery.Disk.Laws.{atomic_write-all_or_nothing, text_eq-tmp_name}
use ibctl.Recovery.Persist.{
  RecoveryPersistedState, Json, IsFaithful, RecoveryLoadOutcome, loaded, defaulted,
  refused_given_up_auto_reset, file_says_given_up, marker_path, sidecar_path, load, save,
  mark_sidecar, write_marker,
}

-- The two files of a mode and their temporary names are four files.
marker_ne_sidecar : (m : Text) → text_eq (marker_path m) (sidecar_path m) ≡ false
unfolding marker_path sidecar_path text_eq
marker_ne_sidecar m = text_eq-append m (codes ".json") (codes ".last-known-phase.txt")

sidecar_ne_marker : (m : Text) → text_eq (sidecar_path m) (marker_path m) ≡ false
unfolding marker_path sidecar_path text_eq
sidecar_ne_marker m = text_eq-append m (codes ".last-known-phase.txt") (codes ".json")

marker_ne_sidecar_tmp : (m : Text) → text_eq (marker_path m) (tmp_name (sidecar_path m)) ≡ false
unfolding marker_path sidecar_path text_eq
marker_ne_sidecar_tmp m =
    rw append_assoc (text_eq-append m (codes ".json") (codes ".last-known-phase.txt.tmp"))

sidecar_ne_marker_tmp : (m : Text) → text_eq (sidecar_path m) (tmp_name (marker_path m)) ≡ false
unfolding marker_path sidecar_path text_eq
sidecar_ne_marker_tmp m =
    rw append_assoc (text_eq-append m (codes ".last-known-phase.txt") (codes ".json.tmp"))

given_up_file : file_says_given_up (holds (as_str given_up)) ≡ true
unfolding as_str trim text_eq
given_up_file = refl

-- The load keeps the operator's halt: it refuses, or it resumes given_up.
abbrev pub halts : {Z T : Type 0} → RecoveryLoadOutcome Z T → Bool
halts (loaded s) = phase_eq s.phase given_up
halts (defaulted _) = false
halts (refused_given_up_auto_reset _) = true

module _ {Zoned Timestamp : Type 0} (json : Json Zoned Timestamp) where
  load_same :
      (fs fs' : Fs) (m : Text) (f : Bool)
      → fs' (marker_path m) ≡ fs (marker_path m)
      → fs' (sidecar_path m) ≡ fs (sidecar_path m)
      → load json fs' m f ≡ load json fs m f
  unfolding load
  load_same fs fs' m f p q = ground arith

  sidecar-halts :
      (fs : Fs) (m : Text)
      → file_says_given_up (fs (sidecar_path m)) ≡ true
      → halts (load json fs m false) ≡ true
  unfolding load
  sidecar-halts fs m h = ground arith

  -- What `write_marker` leaves in the two files.
  write_marker-files :
      (m : Text) (s : RecoveryPersistedState Zoned Timestamp) (faults : List Fault) (fs : Fs)
      → let (result, fs', _) = write_marker json m s faults fs in
        (fs' (sidecar_path m) ≡ fs (sidecar_path m))
        × (((result ≡ done tt)
              × ((t : Text) × (json.encode s ≡ some t) × (fs' (marker_path m) ≡ holds t)))
            ⊎ (((result ≡ io_error) ⊎ (result ≡ crashed))
                × (fs' (marker_path m) ≡ fs (marker_path m))))
  unfolding write_marker
  write_marker-files m s faults fs = elim (Option-cases (json.encode s)) [
    | inl e ↦ ground arith
    | inr (t, e) ↦
        let done_or_not =
          atomic_write-all_or_nothing (marker_path m) t faults fs (marker_path m)
            (text_eq-tmp_name (marker_path m)) in
        let side =
          atomic_write-all_or_nothing (marker_path m) t faults fs (sidecar_path m)
            (sidecar_ne_marker_tmp m) in
        (
          ground (arith, sidecar_ne_marker m),
          elim done_or_not [
            | inl (ok, now) ↦
                inl (ground arith, (t, e, ground (arith, text_eq_self (marker_path m))))
            | inr (cut, same) ↦ inr (ground arith, ground arith)
          ],
        )
  ]

  -- What `mark_sidecar` leaves in the two files.
  mark_sidecar-files :
      (m : Text) (phase : Phase) (faults : List Fault) (fs : Fs)
      → let (result, fs', _) = mark_sidecar m phase faults fs in
        (fs' (marker_path m) ≡ fs (marker_path m))
        × (((result ≡ done tt)
              × (file_says_given_up (fs' (sidecar_path m)) ≡ phase_eq phase given_up))
            ⊎ (((result ≡ io_error) ⊎ (result ≡ crashed))
                × (fs' (sidecar_path m) ≡ fs (sidecar_path m))))
  unfolding mark_sidecar
  mark_sidecar-files m phase faults fs = (
    ground (
      arith,
      atomic_write-all_or_nothing (sidecar_path m) (as_str given_up) faults fs (marker_path m)
          (marker_ne_sidecar_tmp m),
      marker_ne_sidecar m,
    ),
    ground (
      arith,
      atomic_write-all_or_nothing (sidecar_path m) (as_str given_up) faults fs (sidecar_path m)
          (text_eq-tmp_name (sidecar_path m)),
      text_eq_self (sidecar_path m),
      given_up_file,
    ),
  )

  load_written :
      (fs : Fs) (m : Text) (s : RecoveryPersistedState Zoned Timestamp) (t : Text)
      → IsFaithful json
      → s.schema_version ≡ 1
      → json.encode s ≡ some t
      → fs (marker_path m) ≡ holds t
      → file_says_given_up (fs (sidecar_path m)) ≡ phase_eq s.phase given_up
      → load json fs m false ≡ loaded s
  unfolding load
  load_written fs m s t faithful v e h p = ground (arith, faithful.decode-encode s t e)

  load_cleaned :
      (fs fs' : Fs) (m : Text) (old : RecoveryPersistedState Zoned Timestamp)
      → fs' (marker_path m) ≡ fs (marker_path m)
      → file_says_given_up (fs' (sidecar_path m)) ≡ false
      → load json fs m false ≡ loaded old
      → load json fs' m false ≡ loaded old
  unfolding load
  load_cleaned fs fs' m old p q was = ground arith

  -- What a save leaves in the two files: nothing changed, the sidecar alone changed, or all written.
  save-files :
      (m : Text) (s : RecoveryPersistedState Zoned Timestamp) (faults : List Fault) (fs : Fs)
      → let (result, fs', _) = save json m s faults fs in
        (((result ≡ io_error) ⊎ (result ≡ crashed))
          × (fs' (marker_path m) ≡ fs (marker_path m))
          × ((fs' (sidecar_path m) ≡ fs (sidecar_path m))
              ⊎ (file_says_given_up (fs' (sidecar_path m)) ≡ phase_eq s.phase given_up)))
        ⊎ ((result ≡ done tt)
            × (file_says_given_up (fs' (sidecar_path m)) ≡ phase_eq s.phase given_up)
            × ((t : Text) × (json.encode s ≡ some t) × (fs' (marker_path m) ≡ holds t)))
  unfolding save
  save-files m s faults fs =
      let (r1, fs1, faults1) = mark_sidecar m s.phase faults fs in
      let first = mark_sidecar-files m s.phase faults fs in
      let second = write_marker-files m s faults1 fs1 in ground (arith, first, second)

  -- A save that returns Ok is loaded back whole.
  pub save-loaded :
      (m : Text) (s : RecoveryPersistedState Zoned Timestamp) (faults : List Fault) (fs : Fs)
      → IsFaithful json
      → s.schema_version ≡ 1
      → (save json m s faults fs).0 ≡ done tt
      → load json (save json m s faults fs).1 m false ≡ loaded s
  save-loaded m s faults fs faithful v ok = elim (save-files m s faults fs) [
    | inl (cut, _, _) ↦ absurd (ground arith)
    | inr (_, says, (t, e, now)) ↦ load_written _ m s t faithful v e now says
  ]

  -- A save leaves the main marker as it was or holding the encoded state.
  pub save-marker :
      (m : Text) (s : RecoveryPersistedState Zoned Timestamp) (faults : List Fault) (fs : Fs)
      → let fs' = (save json m s faults fs).1 in
        (fs' (marker_path m) ≡ fs (marker_path m))
        ⊎ ((t : Text) × (json.encode s ≡ some t) × (fs' (marker_path m) ≡ holds t))
  save-marker m s faults fs = elim (save-files m s faults fs) [
    | inl (_, same, _) ↦ inl same
    | inr (_, _, now) ↦ inr now
  ]

  -- Saving a given_up state keeps the halt through any fault: the next load gives what it gave
  -- before the save, or refuses, or resumes given_up. A save that returns Ok is loaded back whole.
  pub save-halts :
      (m : Text) (s : RecoveryPersistedState Zoned Timestamp) (faults : List Fault) (fs : Fs)
      → IsFaithful json
      → s.schema_version ≡ 1
      → s.phase ≡ given_up
      → let (result, fs', _) = save json m s faults fs in
        ((load json fs' m false ≡ load json fs m false) ⊎ (halts (load json fs' m false) ≡ true))
        × (result ≡ done tt → load json fs' m false ≡ loaded s)
  save-halts m s faults fs faithful v g =
      let fs' = (save json m s faults fs).1 in
      elim (save-files m s faults fs) [
        | inl (cut, same, inl side) ↦ (inl (load_same fs fs' m false same side), λ ok. ground arith)
        | inl (cut, same, inr says) ↦ (inr (sidecar-halts fs' m (ground arith)), λ ok. ground arith)
        | inr (ok, says, (t, e, now)) ↦
            let whole = load_written fs' m s t faithful v e now says in
            (inr (ground (arith, whole)), λ _. whole)
      ]

  -- Saving any other state over a directory that loads cannot wedge or lose it: through any fault
  -- the next load gives the old state or the new one, and a save that returns Ok gives the new one.
  pub save-old_or_new :
      (m : Text) (s old : RecoveryPersistedState Zoned Timestamp) (faults : List Fault) (fs : Fs)
      → IsFaithful json
      → s.schema_version ≡ 1
      → s.phase ≢ given_up
      → load json fs m false ≡ loaded old
      → let (result, fs', _) = save json m s faults fs in
        ((load json fs' m false ≡ loaded old) ⊎ (load json fs' m false ≡ loaded s))
        × (result ≡ done tt → load json fs' m false ≡ loaded s)
  save-old_or_new m s old faults fs faithful v g was =
      let fs' = (save json m s faults fs).1 in
      elim (save-files m s faults fs) [
        | inl (cut, same, inl side) ↦
            (inl (load_same fs fs' m false same side ∙ was), λ ok. ground arith)
        | inl (cut, same, inr says) ↦
            (inl (load_cleaned fs fs' m old same (ground arith) was), λ ok. ground arith)
        | inr (ok, says, (t, e, now)) ↦
            let whole = load_written fs' m s t faithful v e now says in (inr whole, λ _. whole)
      ]
