-- ===== src/Recovery/Disk.antt =====
-- The files of the settings directory, and the file operations of `std::fs` that
-- ibctl/src/state_machine/recovery.rs performs on them (`atomic_write`, `remove_file`,
-- `read_to_string`). A file is named by its name in the directory. Every operation meets one entry
-- of a list of faults: it works, it returns an I/O error, or the process dies in it. When the list
-- is used up, the rest works.
pub mod Laws
use ibctl.Base.{ℕ, ◌++◌, List, [], ◌∷◌, if◌then◌else◌}
use ibctl.Base.Text.{Text, codes, text_eq}

-- What `read_to_string` finds: nothing, an error other than NotFound, or a text.
pub data File : Type 0 where
  missing unreadable : File
  holds : Text → File

abbrev pub Fs : Type 0
Fs = Text → File

-- The directory with one file changed.
abbrev pub put : Fs → Text → File → Fs
put fs name file other = if text_eq other name then file else fs other

-- A failing or dying write leaves what it got to write.
pub data Fault : Type 0 where
  works : Fault
  fails : Text → Fault
  dies : Text → Fault

pub data Outcome {ℓ} (A : Type ℓ) : Type ℓ where
  done : A → Outcome A
  io_error : Outcome A
  crashed : Outcome A

abbrev pub Io : Type 0 → Type 0
Io A = List Fault → Fs → Outcome A × Fs × List Fault

abbrev pub pure : {A : Type 0} → A → Io A
pure a faults fs = (done a, fs, faults)

-- The `?` of Rust, and the end of the process.
abbrev pub and_then :
    {A B : Type 0} → (A → Io B) → Outcome A × Fs × List Fault → Outcome B × Fs × List Fault
and_then f (done a, fs, faults) = f a faults fs
and_then f (io_error, fs, faults) = (io_error, fs, faults)
and_then f (crashed, fs, faults) = (crashed, fs, faults)

infixl 5 ◌>>=◌ ◌>>◌
abbrev pub ◌>>=◌ : {A B : Type 0} → Io A → (A → Io B) → Io B
◌>>=◌ m f faults fs = and_then f (m faults fs)

abbrev pub ◌>>◌ : {B : Type 0} → Io (Unit {0}) → Io B → Io B
m >> k = m >>= λ _. k

-- One operation: the directory if it works, and if it is cut short with this text written.
abbrev pub operation : (Fs → Fs) → (Text → Fs → Fs) → Io (Unit {0})
operation full cut [] fs = (done tt, full fs, [])
operation full cut (works ∷ faults) fs = (done tt, full fs, faults)
operation full cut (fails text ∷ faults) fs = (io_error, cut text fs, faults)
operation full cut (dies text ∷ faults) fs = (crashed, cut text fs, faults)

-- `File::create`
abbrev pub create : Text → Io (Unit {0})
create name = operation (λ fs. put fs name (holds [])) (λ _ fs. fs)

abbrev pub write_all : Text → Text → Io (Unit {0})
write_all name bytes =
    operation (λ fs. put fs name (holds bytes)) (λ part fs. put fs name (holds part))

abbrev pub sync_all : Io (Unit {0})
sync_all = operation (λ fs. fs) (λ _ fs. fs)

-- A rename in one directory is atomic.
abbrev pub rename : Text → Text → Io (Unit {0})
rename old new = operation (λ fs. put (put fs new (fs old)) old missing) (λ _ fs. fs)

-- `remove_file` with its NotFound read as success.
abbrev pub remove_if_there : Text → Io (Unit {0})
remove_if_there name = operation (λ fs. put fs name missing) (λ _ fs. fs)

abbrev pub tmp_name : Text → Text
tmp_name name = name ++ codes ".tmp"

-- The fsync of the directory after the rename has its errors discarded, and changes no file.
unfoldable pub atomic_write : Text → Text → Io (Unit {0})
atomic_write name bytes = do
  create (tmp_name name)
  write_all (tmp_name name) bytes
  sync_all
  rename (tmp_name name) name
