-- ===== src/Recovery/Disk/Laws.antt =====
-- A write changes its target all at once or not at all, whatever goes wrong.
use ibctl.Base.{◌≡◌, refl, ◌⊎◌, false, List, [], ◌∷◌, arith}
use ibctl.Base.Text.{Text, text_eq, text_eq_self}
use ibctl.Recovery.Disk.{holds, Fs, put, Fault, done, io_error, crashed, tmp_name, atomic_write}

-- A text is not its own temporary name.
pub text_eq-tmp_name : (name : Text) → text_eq name (tmp_name name) ≡ false
unfolding text_eq
text_eq-tmp_name [] = refl
text_eq-tmp_name (c ∷ cs) = ground (arith, text_eq-tmp_name cs)

-- Whatever goes wrong: either the write finished and the target holds the bytes, or it did not and
-- the target is as it was; every file but the target and its temporary one is as it was.
pub atomic_write-all_or_nothing :
    (name bytes : Text) (faults : List Fault) (fs : Fs) (other : Text)
    → text_eq other (tmp_name name) ≡ false
    → let (result, fs', _) = atomic_write name bytes faults fs in
      ((result ≡ done tt) × (fs' other ≡ put fs name (holds bytes) other))
      ⊎ (((result ≡ io_error) ⊎ (result ≡ crashed)) × (fs' other ≡ fs other))
unfolding atomic_write
atomic_write-all_or_nothing name bytes faults fs other h =
    ground (arith, text_eq_self (tmp_name name))
