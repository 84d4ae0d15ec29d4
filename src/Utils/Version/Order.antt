-- ===== src/Utils/Version/Order.antt =====
-- The comparisons of versions, which agree with one another.
use oos.Prelude.{◌≡◌, ◌⊎◌, inl, inr, true, false, arith, Bool-cases}
use oos.Utils.Version.{Version, equals, less, greater}

greater-less : (v x : Version) → greater v x ≡ less x v
unfolding greater
greater-less v x = ground arith

-- Of two versions exactly one is less, or they are the same; `greater` and `equals` say the same, and
-- `greater` is `less` the other way round.
pub less-order :
    (v x : Version)
    → (((less v x ≡ true) × (greater v x ≡ false) × (equals v x ≡ false))
        ⊎ ((less v x ≡ false) × (greater v x ≡ true) × (equals v x ≡ false))
        ⊎ ((less v x ≡ false) × (greater v x ≡ false) × (v ≡ x)))
      × (greater v x ≡ less x v)
unfolding less greater equals
less-order v x = (
  elim (Bool-cases (less v x)) [
    | inl e ↦ inl (e, ground (arith, e), ground (arith, e))
    | inr e ↦ elim (Bool-cases (equals v x)) [
      | inl d ↦ inr (inr (e, ground (arith, e, d), ground (arith, d)))
      | inr d ↦ inr (inl (e, ground (arith, e, d), d))
    ]
  ],
  greater-less v x,
)
