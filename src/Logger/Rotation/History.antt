-- ===== src/Logger/Rotation/History.antt =====
-- `write` keeps the log: what the files hold, the oldest first, is the end of what has been written.
use oos.Prelude.{
  if◌then◌else◌, ℕ, zero, suc, ◌+◌, ◌%◌, ◌^◌, ◌≤◌, ◌<◌, ◌≡◌, refl, sym, ap, ◌∙◌, ◌⊎◌, inl, inr,
  Option, some, List, [], ◌++◌, append-nil, append_assoc, arith, ltb, Bool-cases, length,
  length-append,
}
use oos.Logger.Rotation.{log_path, numbered, text, Files, Sink, rotate, write}
use oos.Logger.Rotation.Shift.{rotate-content}

module _ (fs : Files) where
  -- The rotated files from the number `n` down to 1.
  abbrev pub older : ℕ → fs.Disk → List ℕ
  older zero d = []
  older (suc i) d = text (fs.content d (numbered (suc i))) ++ older i d

  abbrev pub whole_log : ℕ → fs.Disk → List ℕ
  whole_log n d = older n d ++ text (fs.content d log_path)

  older_unchanged :
      (i : ℕ) (d e : fs.Disk)
      → ((j : ℕ) → fs.content e (numbered j) ≡ fs.content d (numbered j))
      → older i e ≡ older i d
  older_unchanged zero d e h = refl
  older_unchanged (suc i) d e h = rw (h (suc i), older_unchanged i d e h) refl

  older_shifted :
      (n i : ℕ) (d e : fs.Disk) (t : List ℕ)
      → fs.content e (numbered 1) ≡ some t
      → ((j : ℕ)
          → (n ≤ suc j) ⊎ (fs.content e (numbered (suc (suc j))) ≡ fs.content d (numbered (suc j))))
      → i < n
      → older (suc i) e ≡ older i d ++ t
  older_shifted n zero d e t f h s = rw f (append-nil t)
  older_shifted n (suc i) d e t f h s = elim (h i) [
    | inl q ↦ absurd (omega (arith, q))
    | inr q ↦
        let rest = older_shifted n i d e t f h (omega arith) in
        rw (q, rest) (sym (append_assoc (text (fs.content d (numbered (suc i)))) (older i d) t))
  ]

  append_log :
      (d : fs.Disk) (t m : List ℕ)
      → fs.content d log_path ≡ some t
      → fs.content (fs.append d log_path m) log_path ≡ some (t ++ m)
  append_log d t m e =
      fs.content-append d log_path log_path m ∙ ap (λ (o : Option (List ℕ)). some (text o ++ m)) e

  append_older : (i : ℕ) (d : fs.Disk) (m : List ℕ) → older i (fs.append d log_path m) ≡ older i d
  append_older i d m =
      older_unchanged i d (fs.append d log_path m)
        (λ j. fs.content-append d log_path (numbered j) m)

  -- Behind an append, and behind a rotation and an append.
  append-whole_log :
      (n : ℕ) (d : fs.Disk) (t m : List ℕ)
      → fs.content d log_path ≡ some t
      → whole_log n (fs.append d log_path m) ≡ whole_log n d ++ m
  append-whole_log n d t m e =
      rw (append_older n d m, append_log d t m e, e) (sym (append_assoc (older n d) t m))

  rotate-whole_log :
      (n : ℕ) (d : fs.Disk) (t : List ℕ)
      → fs.content d log_path ≡ some t
      → whole_log (suc n) d
        ≡ text (fs.content d (numbered (suc n))) ++ whole_log (suc n) (rotate fs (suc n) d)
  rotate-whole_log n d t e =
      let (l, f, h, u) = rotate-content fs (suc n) d t (omega arith) e in
      let shifted = older_shifted (suc n) n d (rotate fs (suc n) d) t f h (omega arith) in
      rw (l, shifted, e)
        (append_assoc (text (fs.content d (numbered (suc n)))) (older n d) t
          ∙ ap (◌++◌ (text (fs.content d (numbered (suc n))))) (sym (append-nil (older n d ++ t))))

-- For a sink with one file at least to rotate, whose log file is that of the working directory and has
-- the size that the sink has noted, and a message that fits into a file, without an overflow of the size: the message is appended to the
-- log file where this does not exceed the maximum, and else it is the whole log file. What the files
-- hold, with the message behind it, is what they hold behind `write`, but that in the second case what
-- the last file held is lost. The size is then that of the log file, which is at most the maximum, and
-- the log file is still that of the working directory.
pub write-whole_log :
    (fs : Files) (s : Sink) (n : ℕ) (d : fs.Disk) (t m : List ℕ)
    → s.logfile ≡ log_path
    → s.file_count ≡ suc n
    → fs.content d log_path ≡ some t
    → s.current_size ≡ length t
    → s.current_size + length m < 2 ^ 64
    → length m ≤ s.max_size
    → let full = ltb s.max_size (length t + length m) in
      let log = if full then m else t ++ m in
      let (later, e) = write fs m s d in
      (whole_log fs (suc n) d ++ m
        ≡ (if full then text (fs.content d (numbered (suc n))) else []) ++ whole_log fs (suc n) e)
      × (fs.content e log_path ≡ some log)
      × (later.current_size ≡ length log)
      × (length log ≤ s.max_size)
      × (later.logfile ≡ log_path)
unfolding write
write-whole_log fs s n d t m p k e z b g =
    let total : (s.current_size + length m) % 2 ^ 64 ≡ length t + length m = omega arith in
    elim (Bool-cases (ltb s.max_size (length t + length m))) [
      | inl q ↦
          let r = rotate fs (suc n) d in
          let (l, f, h, o) = rotate-content fs (suc n) d t (omega arith) e in
          let last = text (fs.content d (numbered (suc n))) in
          rw (total, q, k)
            (
              ap (λ (x : List ℕ). x ++ m) (rotate-whole_log fs n d t e)
                  ∙ append_assoc last (whole_log fs (suc n) r) m
                  ∙ ap (◌++◌ last) (sym (append-whole_log fs (suc n) r [] m l)),
              append_log fs r [] m l,
              refl,
              g,
              refl,
            )
      | inr q ↦
          rw (total, q, p)
            (
              sym (append-whole_log fs (suc n) d t m e),
              append_log fs d t m e,
              sym (length-append t m),
              ground (arith, q, length-append t m),
              refl,
            )
    ]
