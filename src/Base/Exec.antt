-- ===== src/Base/Exec.antt =====
-- Methods that change a store and may fail. What was written before a failure stays written.
use rdns_server.Base.{◌≡◌, ◌∙◌, ◌⊎◌, inl, inr, refl, Option, none, some, Result, ok, err}

abbrev pub Exec : Type 0 → Type 0 → Type 0 → Type 0
Exec E S A = S → Result E A × S

module _ {E S : Type 0} where
  abbrev pub pure : {A : Type 0} → A → Exec E S A
  pure a s = (ok a, s)

  abbrev pub raise : {A : Type 0} → E → Exec E S A
  raise e s = (err e, s)

  abbrev pub lift : {A : Type 0} → Result E A → Exec E S A
  lift r s = (r, s)

  abbrev pub or_raise : {A : Type 0} → E → Option A → Exec E S A
  or_raise e none s = (err e, s)
  or_raise e (some a) s = (ok a, s)

module _ {E S A B : Type 0} where
  abbrev pub continue : Result E A → (A → Exec E S B) → Exec E S B
  continue (ok a) f s = f a s
  continue (err e) f s = (err e, s)

  infixl 5 ◌>>=◌ ◌>>◌
  abbrev pub ◌>>=◌ : Exec E S A → (A → Exec E S B) → Exec E S B
  ◌>>=◌ m f s = continue (m s).0 f (m s).1

  abbrev pub ◌>>◌ : Exec E S A → Exec E S B → Exec E S B
  m >> k = m >>= λ _. k

  -- What follows an action that succeeded.
  pub >>=-of-ok :
      (m : Exec E S A) (f : A → Exec E S B) (s t : S) (a : A)
      → m s ≡ (ok a, t)
      → (m >>= f) s ≡ f a t
  >>=-of-ok m f s t a h = rw h refl

  -- A block that succeeds: its first action did, and the rest went on from there.
  pub >>=-eq-ok :
      (m : Exec E S A) (f : A → Exec E S B) (s t : S) (b : B)
      → (m >>= f) s ≡ (ok b, t)
      → (a : A) × (u : S) × (m s ≡ (ok a, u)) × (f a u ≡ (ok b, t))
  >>=-eq-ok m f s t b h = first (m s) refl
    where
      first :
          (r : Result E A × S)
          → m s ≡ r
          → (a : A) × (u : S) × (m s ≡ (ok a, u)) × (f a u ≡ (ok b, t))
      first (ok a, u) e = (a, u, e, rw e at h)
      first (err x, u) e = absurd (never (rw e at h))
        where
          never : ◌≡◌ {A = Result E B × S} (err x, u) (ok b, t) → ⊥
          never p = cc

  -- A block that fails: its first action did, or what follows.
  pub >>=-eq-err :
      (m : Exec E S A) (f : A → Exec E S B) (s t : S) (e : E)
      → (m >>= f) s ≡ (err e, t)
      → (m s ≡ (err e, t)) ⊎ ((a : A) × (u : S) × (m s ≡ (ok a, u)) × (f a u ≡ (err e, t)))
  >>=-eq-err m f s t e h = first (m s) refl
    where
      first :
          (r : Result E A × S)
          → m s ≡ r
          → (m s ≡ (err e, t)) ⊎ ((a : A) × (u : S) × (m s ≡ (ok a, u)) × (f a u ≡ (err e, t)))
      first (ok a, u) p = inr (a, u, p, rw p at h)
      first (err x, u) p = inl (p ∙ same_failure (rw p at h))
        where
          same_failure :
              ◌≡◌ {A = Result E B × S} (err x, u) (err e, t)
              → ◌≡◌ {A = Result E A × S} (err x, u) (err e, t)
          same_failure q = cc

-- How an action ends, with the equation.
pub Exec-cases :
    {E S A : Type 0} (m : Exec E S A) (s : S)
    → ((a : A) × (t : S) × (m s ≡ (ok a, t))) ⊎ ((e : E) × (t : S) × (m s ≡ (err e, t)))
Exec-cases {E} {S} {A} m s = ended (m s) refl
  where
    ended :
        (r : Result E A × S)
        → m s ≡ r
        → ((a : A) × (t : S) × (m s ≡ (ok a, t))) ⊎ ((e : E) × (t : S) × (m s ≡ (err e, t)))
    ended (ok a, t) h = inl (a, t, h)
    ended (err e, t) h = inr (e, t, h)
