-- ===== src/Logger/Rotation.antt =====
-- The sink that writes a log to a file and rotates it, src/logger/rotating_file_sink.cpp.
--
-- The files are an interface: the wrappers of src/utils/os.cpp around the calls of the system, and
-- `fwrite` to a file that is open for appending, by what they do to the contents. The names that
-- `calculate_filename` makes differ in their number only. A bare name is a file of the working
-- directory; `opened_log` is the log file that the constructor has opened, where its directory is
-- another one.
pub mod Shift
pub mod History
pub mod Tests
use oos.Prelude.{
  ℕ, zero, suc, ◌+◌, ◌%◌, ◌^◌, ◌≡◌, Bool, true, false, Option, none, some, List, [], ◌++◌, ltb,
  ◌==◌, if◌then◌else◌, length,
}

pub data FileName : Type 0 where
  log_path no_name opened_log : FileName
  numbered : ℕ → FileName

abbrev pub same_name : FileName → FileName → Bool
same_name log_path log_path = true
same_name no_name no_name = true
same_name opened_log opened_log = true
same_name (numbered i) (numbered j) = i == j
same_name _ _ = false

abbrev pub is_some {ℓ} : {A : Type ℓ} → Option A → Bool
is_some none = false
is_some (some a) = true

abbrev pub text : Option (List ℕ) → List ℕ
text none = []
text (some t) = t

pub record Files : Type 1 where
  pub Disk : Type 0
  pub content : Disk → FileName → Option (List ℕ)
  pub exists : Disk → FileName → Bool
  pub remove : Disk → FileName → Disk
  pub rename : Disk → FileName → FileName → Disk
  pub open_file : Disk → FileName → Disk
  pub append : Disk → FileName → List ℕ → Disk
  pub exists-content : (d : Disk) (f : FileName) → exists d f ≡ is_some (content d f)
  pub content-remove :
      (d : Disk) (f g : FileName)
      → content (remove d f) g ≡ (if same_name g f then none else content d g)
  -- Of a file that there is, to another name.
  pub content-rename :
      (d : Disk) (f g x : FileName)
      → is_some (content d f) ≡ true
      → same_name f g ≡ false
      → same_name g no_name ≡ false
      → content (rename d f g) x
        ≡ (if same_name x g then content d f else if same_name x f then none else content d x)
  -- Of a file that there is not: the call fails.
  pub content-rename_missing :
      (d : Disk) (f g x : FileName)
      → is_some (content d f) ≡ false
      → content (rename d f g) x ≡ content d x
  pub content-open_file :
      (d : Disk) (f g : FileName)
      → content (open_file d f) g
        ≡ (if same_name g f then some (text (content d f)) else content d g)
  pub content-append :
      (d : Disk) (f g : FileName) (t : List ℕ)
      → content (append d f t) g
        ≡ (if same_name g f then some (text (content d f) ++ t) else content d g)

-- The fields of the sink that `write` reads and changes; of `logfile_`, the file of its stream.
pub record Sink : Type 0 where
  pub logfile : FileName
  pub max_size : ℕ
  pub current_size : ℕ
  pub file_count : ℕ

module _ (fs : Files) where
  -- The turns of the loop of `rotate` from `i` on, for `n` files, and the last `filename`.
  unfoldable pub rotate_loop : ℕ → ℕ → fs.Disk → fs.Disk
  rotate_loop n zero d = d
  rotate_loop n (suc i) d =
      let moved =
        if suc i == n
        then fs.remove d (numbered (suc i))
        else fs.rename d (numbered (suc i)) (numbered (suc (suc i))) in
      rotate_loop n i (if fs.exists d (numbered (suc i)) then moved else d)

  abbrev pub last_filename : ℕ → FileName
  last_filename zero = no_name
  last_filename (suc i) = numbered 1

  unfoldable pub rotate : ℕ → fs.Disk → fs.Disk
  rotate n d = fs.open_file (fs.rename (rotate_loop n n d) log_path (last_filename n)) log_path

  unfoldable pub write : List ℕ → Sink → fs.Disk → Sink × fs.Disk
  write message s d =
      let size = length message in
      let total = (s.current_size + size) % 2 ^ 64 in
      if ltb s.max_size total
      then (
        record s { current_size = size; logfile = log_path },
        fs.append (rotate s.file_count d) log_path message,
      )
      else (record s { current_size = total }, fs.append d s.logfile message)
