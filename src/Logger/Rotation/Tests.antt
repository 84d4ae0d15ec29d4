-- ===== src/Logger/Rotation/Tests.antt =====
-- The rotation of logs with the files in memory.
use oos.Prelude.{
  ℕ, ◌≤◌, ◌≡◌, refl, Option, none, some, List, [], ◌∷◌, ◌++◌, arith, ◌==◌, if◌then◌else◌,
}
use oos.Logger.Rotation.{
  FileName, opened_log, log_path, numbered, no_name, same_name, is_some, text, Files, Sink, rotate,
  rotate_loop, write,
}
use oos.Logger.Rotation.History.{whole_log, write-whole_log}

abbrev memory : Files
memory = record {
  Disk = FileName → Option (List ℕ);
  content = λ d f. d f;
  exists = λ d f. is_some (d f);
  remove = λ d f g. if same_name g f then none else d g;
  rename = λ d f g x.
      if is_some (d f)
      then (if same_name x g then d f else if same_name x f then none else d x)
      else d x;
  open_file = λ d f g. if same_name g f then some (text (d f)) else d g;
  append = λ d f t g. if same_name g f then some (text (d f) ++ t) else d g;
  exists-content = λ d f. refl;
  content-remove = λ d f g. refl;
  content-rename = λ d f g x e s z. rw e refl;
  content-rename_missing = λ d f g x e. rw e refl;
  content-open_file = λ d f g. refl;
  content-append = λ d f g t. refl;
}

-- The log file, and of the rotated files 1 and 2.
abbrev logs : FileName → Option (List ℕ)
logs log_path = some (5 ∷ 6 ∷ [])
logs no_name = none
logs opened_log = none
logs (numbered i) = if i == 1 then some (3 ∷ 4 ∷ []) else if i == 2 then some (1 ∷ 2 ∷ []) else none

abbrev small_sink : Sink
small_sink = record { logfile = log_path; max_size = 3; current_size = 2; file_count = 2 }

third_lost : (write memory (7 ∷ 8 ∷ []) small_sink logs).1 (numbered 2) ≡ some (3 ∷ 4 ∷ [])
unfolding write rotate rotate_loop
third_lost = refl

-- The sink whose log file is in another directory, where there is nothing in the working directory.
abbrev moved_sink : Sink
moved_sink = record small_sink { logfile = opened_log }

abbrev elsewhere : FileName → Option (List ℕ)
elsewhere opened_log = some (5 ∷ 6 ∷ [])
elsewhere _ = none

-- The rotation leaves the file of the log, and the log goes on in the working directory.
not_rotated :
    let (later, d) = write memory (7 ∷ 8 ∷ []) moved_sink elsewhere in
    (d opened_log ≡ some (5 ∷ 6 ∷ [])) × (d (numbered 1) ≡ none) × (d log_path ≡ some (7 ∷ 8 ∷ []))
unfolding write rotate rotate_loop
not_rotated = (refl, refl, refl)

write-whole_log_example :
    let (later, e) = write memory (7 ∷ 8 ∷ []) small_sink logs in
    ((1 ∷ 2 ∷ 3 ∷ 4 ∷ 5 ∷ 6 ∷ []) ++ (7 ∷ 8 ∷ []) ≡ (1 ∷ 2 ∷ []) ++ whole_log memory 2 e)
    × (e log_path ≡ some (7 ∷ 8 ∷ []))
    × (later.current_size ≡ 2)
    × (2 ≤ 3)
    × (later.logfile ≡ log_path)
write-whole_log_example =
    write-whole_log memory small_sink 1 logs (5 ∷ 6 ∷ []) (7 ∷ 8 ∷ []) refl refl refl refl
      (omega arith) (omega arith)
