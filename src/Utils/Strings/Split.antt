-- ===== src/Utils/Strings/Split.antt =====
-- The items of a joined list.
use oos.Prelude.{
  ℕ, ◌≡◌, ◌≢◌, refl, sym, ◌∙◌, ap, true, false, List, [], ◌∷◌, ◌++◌, append_assoc, append-nil, ◌==◌,
  arith,
}
use oos.Prelude.Bytes.{Bytes}
use oos.Utils.Strings.{split_loop, split}

-- The delimiter is not in the text.
abbrev pub Lacks : ℕ → Bytes → Type 0
Lacks delim [] = Unit
Lacks delim (c ∷ cs) = (c ≢ delim) × Lacks delim cs

-- No item has the delimiter in it, and the last is not empty.
abbrev pub AreItems : ℕ → Bytes → List Bytes → Type 0
AreItems delim x [] = Lacks delim x × (x ≢ [])
AreItems delim x (y ∷ ys) = Lacks delim x × AreItems delim y ys

-- The items with the delimiter between them.
abbrev pub join : ℕ → Bytes → List Bytes → Bytes
join delim x [] = x
join delim x (y ∷ ys) = x ++ delim ∷ join delim y ys

split_loop-append :
    (delim : ℕ) (x rest item : Bytes)
    → Lacks delim x
    → split_loop delim (x ++ rest) item ≡ split_loop delim rest (item ++ x)
unfolding split_loop
split_loop-append delim [] rest item h = rw (append-nil item) refl
split_loop-append delim (c ∷ x) rest item (h, hs) =
    let e : (c == delim) ≡ false = ground (arith, h) in
    rw e (
      split_loop-append delim x rest (item ++ c ∷ []) hs
      ∙ ap (λ (i : Bytes). split_loop delim rest i) (append_assoc item (c ∷ []) x))

split_loop-delim :
    (delim : ℕ) (rest item : Bytes)
    → split_loop delim (delim ∷ rest) item ≡ item ∷ split_loop delim rest []
unfolding split_loop
split_loop-delim delim rest item = let e : (delim == delim) ≡ true = ground arith in rw e refl

split_loop-last : (delim : ℕ) (x : Bytes) → Lacks delim x → x ≢ [] → split_loop delim x [] ≡ x ∷ []
unfolding split_loop
split_loop-last delim [] h g = absurd (g refl)
split_loop-last delim (c ∷ x) h g =
    ap (λ (str : Bytes). split_loop delim str []) (sym (append-nil (c ∷ x)))
    ∙ split_loop-append delim (c ∷ x) [] [] h

-- A joined list is split into its items, where none has the delimiter in it and the last is not
-- empty.
pub split-join :
    (delim : ℕ) (x : Bytes) (xs : List Bytes)
    → AreItems delim x xs
    → split delim (join delim x xs) ≡ x ∷ xs
unfolding split
split-join delim x [] (h, g) = split_loop-last delim x h g
split-join delim x (y ∷ ys) (h, hs) =
    split_loop-append delim x (delim ∷ join delim y ys) [] h
    ∙ split_loop-delim delim (join delim y ys) x
    ∙ ap (◌∷◌ x) (split-join delim y ys hs)
