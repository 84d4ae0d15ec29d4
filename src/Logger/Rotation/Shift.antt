-- ===== src/Logger/Rotation/Shift.antt =====
-- What `rotate` does to each file.
use oos.Prelude.{
  ℕ, zero, suc, ◌≤◌, ◌<◌, ◌≡◌, refl, sym, ap, ◌∙◌, ◌⊎◌, inl, inr, true, false, Option, none, some,
  List, [], arith, ltb, leb, ◌==◌, if◌then◌else◌, ltb→lt, leb→le, ==_iff, Bool-cases,
}
use oos.Logger.Rotation.{
  FileName, log_path, numbered, same_name, is_some, text, Files, rotate_loop, rotate,
}

is_some-false {ℓ} : {A : Type ℓ} (o : Option A) → is_some o ≡ false → o ≡ none
is_some-false none h = refl
is_some-false (some a) h = cc

module _ (fs : Files) (n : ℕ) where
  -- One turn at `suc i`, whether the file is there or not.
  moved : ℕ → fs.Disk → fs.Disk
  moved i d =
      if fs.exists d (numbered (suc i))
      then (if suc i == n
          then fs.remove d (numbered (suc i))
          else fs.rename d (numbered (suc i)) (numbered (suc (suc i))))
      else d

  -- The content of a file behind a turn: by whether there is a file to move, and whether it is the
  -- last one.
  moved_content :
      (i : ℕ) (d : fs.Disk) (x : FileName)
      → (fs.content (moved i d) x ≡ fs.content d x) × (fs.content d (numbered (suc i)) ≡ none)
        ⊎ (fs.content (moved i d) x
            ≡ (if same_name x (numbered (suc i)) then none else fs.content d x))
          × ((suc i == n) ≡ true)
        ⊎ (fs.content (moved i d) x ≡ (
            if same_name x (numbered (suc (suc i)))
            then fs.content d (numbered (suc i))
            else if same_name x (numbered (suc i))
            then none
            else fs.content d x))
          × ((suc i == n) ≡ false)
  unfolding moved
  moved_content i d x = elim (Bool-cases (fs.exists d (numbered (suc i)))) [
    | inl e ↦ elim (Bool-cases (suc i == n)) [
      | inl f ↦ inr (inl (rw (e, f) (fs.content-remove d (numbered (suc i)) x), f))
      | inr f ↦ inr (
          inr (
            rw (e, f)
                (fs.content-rename d (numbered (suc i)) (numbered (suc (suc i))) x
                  (sym (fs.exists-content d (numbered (suc i))) ∙ e) (ground arith) refl),
            f,
          ))
    ]
    | inr e ↦ inl (
      rw e refl,
      is_some-false (fs.content d (numbered (suc i)))
          (sym (fs.exists-content d (numbered (suc i))) ∙ e),
    )
  ]

  moved_from : (i : ℕ) (d : fs.Disk) → fs.content (moved i d) (numbered (suc i)) ≡ none
  moved_from i d =
      let s : (suc i == suc i) ≡ true = ground arith in
      let t : (suc i == suc (suc i)) ≡ false = ground arith in
      elim (moved_content i d (numbered (suc i))) [
        | inl h ↦ h.0 ∙ h.1
        | inr (inl h) ↦ rw s at h.0
        | inr (inr h) ↦ rw (t, s) at h.0
      ]

  moved_to :
      (i : ℕ) (d : fs.Disk)
      → (suc i == n) ≡ false
      → fs.content d (numbered (suc (suc i))) ≡ none
      → fs.content (moved i d) (numbered (suc (suc i))) ≡ fs.content d (numbered (suc i))
  moved_to i d o g =
      let s : (suc (suc i) == suc (suc i)) ≡ true = ground arith in
      elim (moved_content i d (numbered (suc (suc i)))) [
        | inl h ↦ h.0 ∙ g ∙ sym h.1
        | inr (inl h) ↦ cc
        | inr (inr h) ↦ rw s at h.0
      ]

  moved_other :
      (i : ℕ) (d : fs.Disk) (x : FileName)
      → same_name x (numbered (suc i)) ≡ false
      → (same_name x (numbered (suc (suc i))) ≡ false) ⊎ ((suc i == n) ≡ true)
      → fs.content (moved i d) x ≡ fs.content d x
  moved_other i d x o g = elim (moved_content i d x) [
    | inl h ↦ h.0
    | inr (inl h) ↦ rw o at h.0
    | inr (inr h) ↦ elim g [ inl f ↦ rw (f, o) at h.0 | inr f ↦ cc ]
  ]

  -- The loop from `i` on, where the file behind is free or beyond the last one.
  Free : ℕ → fs.Disk → Type 0
  Free i d = (i ≡ n) ⊎ (fs.content d (numbered (suc i)) ≡ none)

  moved-Free : (i : ℕ) (d : fs.Disk) → Free i (moved i d)
  unfolding Free
  moved-Free i d = inr (moved_from i d)

  loop_step : (i : ℕ) (d : fs.Disk) → rotate_loop fs n (suc i) d ≡ rotate_loop fs n i (moved i d)
  unfolding rotate_loop moved
  loop_step i d = refl

  loop_log :
      (i : ℕ) (d : fs.Disk) → fs.content (rotate_loop fs n i d) log_path ≡ fs.content d log_path
  unfolding rotate_loop
  loop_log zero d = refl
  loop_log (suc i) d =
      rw (loop_step i d) (loop_log i (moved i d)) ∙ moved_other i d log_path refl (inl refl)

  -- A file behind those that the loop reads.
  loop_above :
      (i j : ℕ) (d : fs.Disk)
      → (i < j) ⊎ ((i ≡ n) × (i ≤ j))
      → fs.content (rotate_loop fs n i d) (numbered (suc j)) ≡ fs.content d (numbered (suc j))
  unfolding rotate_loop
  loop_above zero j d h = refl
  loop_above (suc i) j d h =
      rw (loop_step i d) (
        loop_above i j (moved i d)
          (inl (elim h [ inl q ↦ omega (arith, q) | inr q ↦ omega (arith, q.1) ])))
      ∙ moved_other i d (numbered (suc j))
          (elim h [ inl q ↦ ground (arith, q) | inr q ↦ ground (arith, q.1) ])
          (elim h [ inl q ↦ inl (ground (arith, q)) | inr q ↦ inr (ground (arith, q.0)) ])

  loop_first : (i : ℕ) (d : fs.Disk) → 0 < i → fs.content (rotate_loop fs n i d) (numbered 1) ≡ none
  unfolding rotate_loop moved
  loop_first zero d h = absurd (omega arith)
  loop_first (suc zero) d h = moved_from 0 d
  loop_first (suc (suc i)) d h =
      rw (loop_step (suc i) d) (loop_first (suc i) (moved (suc i) d) (omega arith))

  loop_shift :
      (i j : ℕ) (d : fs.Disk)
      → Free i d
      → i ≤ n
      → j < i
      → suc j < n
      → fs.content (rotate_loop fs n i d) (numbered (suc (suc j))) ≡ fs.content d (numbered (suc j))
  unfolding Free
  loop_shift zero j d f m g k = absurd (omega arith)
  loop_shift (suc i) j d f m g k = elim (Bool-cases (j == i)) [
    | inl e ↦
        let e' : j ≡ i = (==_iff j i).0 e in
        let o : (suc i == n) ≡ false = ground (arith, e', k) in
        let free : fs.content d (numbered (suc (suc i))) ≡ none = elim f [
          | inl q ↦ absurd (omega (arith, q, e', k))
          | inr q ↦ q
        ] in
        rw (loop_step i d, e')
          (loop_above i (suc i) (moved i d) (inl (omega arith)) ∙ moved_to i d o free)
    | inr e ↦
        rw (loop_step i d)
          (loop_shift i j (moved i d) (moved-Free i d) (omega arith) (ground (arith, e, g)) k)
        ∙ moved_other i d (numbered (suc j)) (ground (arith, e)) (inl (ground (arith, e, g)))
  ]

-- For `n` files, one at least: behind `rotate` the log file is empty, the file 1 is what the log file
-- was, each file from 2 to `n` is what the file before it was, or missing like it, and the files beyond
-- `n` are as they were.
pub rotate-content :
    (fs : Files) (n : ℕ) (d : fs.Disk) (t : List ℕ)
    → 0 < n
    → fs.content d log_path ≡ some t
    → (fs.content (rotate fs n d) log_path ≡ some [])
      × (fs.content (rotate fs n d) (numbered 1) ≡ some t)
      × ((j : ℕ)
          → (n ≤ suc j)
            ⊎ (fs.content (rotate fs n d) (numbered (suc (suc j)))
                ≡ fs.content d (numbered (suc j))))
      × ((j : ℕ)
          → (j < n)
            ⊎ (fs.content (rotate fs n d) (numbered (suc j)) ≡ fs.content d (numbered (suc j))))
unfolding rotate Free
rotate-content fs zero d t h e = absurd (omega arith)
rotate-content fs (suc n) d t h e =
    let d1 = rotate_loop fs (suc n) (suc n) d in
    let logged = loop_log fs (suc n) (suc n) d ∙ e in
    let there : is_some (fs.content d1 log_path) ≡ true = rw logged refl in
    let renamed = λ (x : FileName). fs.content-rename d1 log_path (numbered 1) x there refl refl in
    let opened =
      λ (x : FileName). fs.content-open_file (fs.rename d1 log_path (numbered 1)) log_path x in
    (
      opened log_path ∙ ap (λ (o : Option (List ℕ)). some (text o)) (renamed log_path),
      opened (numbered 1) ∙ renamed (numbered 1) ∙ logged,
      (λ j. elim (Bool-cases (leb (suc n) (suc j))) [
        | inl q ↦ inl (leb→le (suc n) (suc j) q)
        | inr q ↦
            let z : (suc (suc j) == 1) ≡ false = ground arith in
            let r = rw z at (renamed (numbered (suc (suc j)))) in
            inr (
              opened (numbered (suc (suc j)))
              ∙ r
              ∙ loop_shift fs (suc n) (suc n) j d (inl refl) (omega arith) (ground (arith, q))
                  (ground (arith, q)))
      ]),
      (λ j. elim (Bool-cases (ltb j (suc n))) [
        | inl q ↦ inl (ltb→lt j (suc n) q)
        | inr q ↦
            let z : (suc j == 1) ≡ false = ground (arith, q) in
            let r = rw z at (renamed (numbered (suc j))) in
            inr (
              opened (numbered (suc j))
              ∙ r
              ∙ loop_above fs (suc n) (suc n) j d (inr (refl, ground (arith, q))))
      ]),
    )
