-- ===== src/Text/RoundTrip.antt =====
-- Splitting and joining undo one another.
use rdns_server.Base.{
  ℕ, Bool-cases, inl, inr, ◌≢◌, ◌≡◌, refl, List, [], ◌∷◌, ◌++◌, Bytes, ◌==◌, All, arith,
}
use rdns_server.Text.{split, join, onto_first}

-- No byte of the string is the given one.
abbrev pub Lacks : ℕ → Bytes → Type 0
Lacks c = All (λ x. x ≢ c)

module _ (sep : ℕ) where
  pub split-ne-nil : (s : Bytes) → split sep s ≢ []
  unfolding split onto_first
  split-ne-nil [] = cc
  split-ne-nil (c ∷ s) = ground (arith, split-ne-nil s)

  join-onto_first :
      (c : ℕ) (ps : List Bytes) → ps ≢ [] → join sep (onto_first c ps) ≡ c ∷ join sep ps
  unfolding onto_first join
  join-onto_first c [] h = absurd (h refl)
  join-onto_first c (p ∷ []) h = refl
  join-onto_first c (p ∷ q ∷ ps) h = refl

  pub join-cons :
      (p : Bytes) (ps : List Bytes) → ps ≢ [] → join sep (p ∷ ps) ≡ p ++ sep ∷ join sep ps
  unfolding join
  join-cons p [] h = absurd (h refl)
  join-cons p (q ∷ ps) h = refl

  pub join-split : (s : Bytes) → join sep (split sep s) ≡ s
  unfolding split
  join-split [] = unfold join in refl
  join-split (c ∷ s) = ground (
    arith,
    join-split s,
    join-onto_first c (split sep s) (split-ne-nil s),
    join-cons [] (split sep s) (split-ne-nil s),
  )

  -- A piece with no separator, before a separator and the rest.
  pub split-append : (p s : Bytes) → Lacks sep p → split sep (p ++ sep ∷ s) ≡ p ∷ split sep s
  unfolding split onto_first
  split-append [] s h = ground arith
  split-append (c ∷ p) s (hc, hp) = ground (arith, split-append p s hp)

  pub split_one : (p : Bytes) → Lacks sep p → split sep p ≡ p ∷ []
  unfolding split onto_first
  split_one [] h = refl
  split_one (c ∷ p) (hc, hp) = ground (arith, split_one p hp)

  pub split-join : (ps : List Bytes) → ps ≢ [] → All (Lacks sep) ps → split sep (join sep ps) ≡ ps
  unfolding join
  split-join [] h _ = absurd (h refl)
  split-join (p ∷ []) h (hp, _) = split_one p hp
  split-join (p ∷ q ∷ ps) h (hp, hq) =
      rw (split-append p (join sep (q ∷ ps)) hp, split-join (q ∷ ps) (λ e. cc) hq)

  onto_first-Lacks :
      (c : ℕ) (ps : List Bytes) → c ≢ sep → All (Lacks sep) ps → All (Lacks sep) (onto_first c ps)
  unfolding onto_first
  onto_first-Lacks c [] h k = ((h, tt), tt)
  onto_first-Lacks c (p ∷ ps) h (hp, hps) = ((h, hp), hps)

  -- No piece of a split holds the separator.
  pub split-Lacks : (s : Bytes) → All (Lacks sep) (split sep s)
  unfolding split
  split-Lacks [] = (tt, tt)
  split-Lacks (c ∷ s) = elim (Bool-cases (c == sep)) [
    | inl e ↦ rw e (tt, split-Lacks s)
    | inr e ↦ rw e (onto_first-Lacks c (split sep s) (λ p. ground arith) (split-Lacks s))
  ]
