-- ===== src/Etcdv3/Domains/Slugs.antt =====
-- The slug that `Set` of backend/etcdv3/etcdv3.go chooses.
use rdns_server.Base.{
  ℕ, zero, suc, ◌+◌, ◌≤◌, ◌<◌, ◌≡◌, refl, ◌⊎◌, inl, inr, false, Bytes, Result, ok, arith,
  Bool-cases,
}
use rdns_server.Base.Exec.{>>=-eq-ok}
use rdns_server.Etcdv3.Names.{get_path, sub_name}
use rdns_server.Etcdv3.Client.{Client, Config, Error}
use rdns_server.Etcdv3.Leases.{check_slug_name, check_path_exist}
use rdns_server.Etcdv3.Domains.{choose_slug}

module _ (c : Client) (b : Config) where
  -- The choice is a draw of the run whose slug was found not frozen, and whose path was found free
  -- right after, when the choice ended.
  abbrev pub Free : ℕ → ℕ → Bytes → Bytes → Bytes → c.State → Type 0
  Free i left path slug fqdn t =
      (k : ℕ) × (i ≤ k)
      × (k < i + left)
      × (slug ≡ b.draw k)
      × (fqdn ≡ sub_name slug b.domain)
      × (path ≡ get_path b.prefix fqdn)
      × ((u : c.State) × (v : c.State) × (check_slug_name c b slug u ≡ (ok false, v))
          × (check_path_exist c b path v ≡ (ok false, t)))

  Free-later :
      (i left : ℕ) (path slug fqdn : Bytes) (t : c.State)
      → Free (i + 1) left path slug fqdn t
      → Free i (suc left) path slug fqdn t
  Free-later i left path slug fqdn t (k, l, m, d, n, p, f) =
      (k, omega arith, omega arith, d, n, p, f)

  later :
      (i left : ℕ) (path slug fqdn old : Bytes) (t : c.State)
      → Free (i + 1) left path slug fqdn t ⊎ (fqdn ≡ old)
      → Free i (suc left) path slug fqdn t ⊎ (fqdn ≡ old)
  later i left path slug fqdn old t (inl f) = inl (Free-later i left path slug fqdn t f)
  later i left path slug fqdn old t (inr e) = inr e

  Free-now :
      (i left : ℕ) (path slug fqdn : Bytes) (s u v t : c.State)
      → check_slug_name c b (b.draw i) s ≡ (ok false, u)
      → check_path_exist c b (get_path b.prefix (sub_name (b.draw i) b.domain)) u ≡ (ok false, v)
      → ◌≡◌ {A = Result Error (Bytes × Bytes × Bytes) × c.State}
          (
            ok (
              get_path b.prefix (sub_name (b.draw i) b.domain),
              b.draw i,
              sub_name (b.draw i) b.domain,
            ),
            v,
          )
          (ok (path, slug, fqdn), t)
      → Free i (suc left) path slug fqdn t
  Free-now i left path slug fqdn s u v t p x y =
      let d : slug ≡ b.draw i = cc in
      let n : fqdn ≡ sub_name (b.draw i) b.domain = cc in
      let g : path ≡ get_path b.prefix (sub_name (b.draw i) b.domain) = cc in
      let w : v ≡ t = cc in
      (
        i,
        omega arith,
        omega arith,
        d,
        rw (n, d) refl,
        rw (g, n) refl,
        (s, u, rw d p, rw g (rw (← w) x)),
      )

  -- A choice that succeeds is a draw that is free, or it keeps the name that `Set` was given.
  pub choose_slug-Free :
      (left i : ℕ) (path slug fqdn path' slug' fqdn' : Bytes) (s t : c.State)
      → choose_slug c b left i path slug fqdn s ≡ (ok (path', slug', fqdn'), t)
      → Free i left path' slug' fqdn' t ⊎ (fqdn' ≡ fqdn)
  unfolding choose_slug
  choose_slug-Free zero i path slug fqdn path' slug' fqdn' s t h = inr (cc)
  choose_slug-Free (suc left) i path slug fqdn path' slug' fqdn' s t h =
      let drawn = b.draw i in
      let candidate = sub_name drawn b.domain in
      let candidate_path = get_path b.prefix candidate in
      let (frozen, u, p, q) = >>=-eq-ok (check_slug_name c b drawn) _ s t _ h in
      elim (Bool-cases frozen) [
        | inl e ↦
            later i left path' slug' fqdn' fqdn t
              (choose_slug-Free left (i + 1) path drawn fqdn path' slug' fqdn' u t (rw e at q))
        | inr e ↦
            let (taken, v, x, y) =
              >>=-eq-ok (check_path_exist c b candidate_path) _ u t _ (rw e at q) in
            elim (Bool-cases taken) [
              | inl f ↦ later i left path' slug' fqdn' fqdn t (
                  choose_slug-Free left (i + 1) candidate_path drawn fqdn path' slug' fqdn' v t
                    (rw f at y))
              | inr f ↦
                  inl
                    (Free-now i left path' slug' fqdn' s u v t (rw e at p) (rw f at x) (rw f at y))
            ]
      ]
