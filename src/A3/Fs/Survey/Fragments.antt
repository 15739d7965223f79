-- ===== src/A3/Fs/Survey/Fragments.antt =====
-- About the test of `fragmentation_degree` in a3/fs/fsutil2.c.
use mock_os.Prelude.{
  ℕ, ◌+◌, ◌-◌, ◌%◌, ◌<◌, ◌≡◌, ◌↔◌, ◌⊎◌, inl, inr, refl, Bool, true, false, ◌||◌, List, [], ◌∷◌, ltb,
  arith,
}
use mock_os.A3.Fs.Survey.{is_fragmented}

-- Two sectors in a row, the second of which is before the first or more than 3 behind it.
abbrev pub HasGap : List ℕ → Type 0
HasGap [] = ⊥
HasGap (a ∷ []) = ⊥
HasGap (a ∷ b ∷ rest) = ((b < a) ⊎ (a + 3 < b)) ⊎ HasGap (b ∷ rest)

abbrev pub AreSectors : List ℕ → Type 0
AreSectors [] = Unit
AreSectors (a ∷ rest) = (a < 2147483648) × AreSectors rest

or_iff : {P Q : Type 0} (b c : Bool) → (b ≡ true) ↔ P → (c ≡ true) ↔ Q → ((b || c) ≡ true) ↔ (P ⊎ Q)
or_iff true c p q = (λ e. inl (p.0 refl), λ x. refl)
or_iff false c p q =
    (λ e. inr (q.0 e), λ x. elim x [ inl y ↦ absurd (ground (arith, p.1 y)) | inr y ↦ q.1 y ])

gap_iff :
    (a b : ℕ)
    → a < 2147483648
    → b < 2147483648
    → (ltb 3 ((b + 4294967296 - a) % 4294967296) ≡ true) ↔ ((b < a) ⊎ (a + 3 < b))
gap_iff a b ha hb = ground arith

-- For the sectors of a file, all below 2^31, the test of fragmentation_degree holds just when two
-- sectors in a row go back, by whatever distance, or go on by more than 3.
pub is_fragmented_iff :
    (sectors : List ℕ) → AreSectors sectors → (is_fragmented sectors ≡ true) ↔ HasGap sectors
unfolding is_fragmented
is_fragmented_iff [] h = (λ e. ground (arith, e), λ g. absurd g)
is_fragmented_iff (a ∷ []) h = (λ e. ground (arith, e), λ g. absurd g)
is_fragmented_iff (a ∷ b ∷ rest) (ha, (hb, h)) =
    or_iff _ _ (gap_iff a b ha hb) (is_fragmented_iff (b ∷ rest) (hb, h))
