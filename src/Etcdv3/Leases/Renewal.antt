-- ===== src/Etcdv3/Leases/Renewal.antt =====
-- A token that is there: what `setToken` of backend/etcdv3/etcdv3.go does to it.
use rdns_server.Base.{
  ℕ, ◌≡◌, sym, ap, ◌∙◌, true, List, [], ◌∷◌, Option, none, some, Bytes, codes, same, same_iff,
  Result, ok, err, Bool-cases, inl, inr,
}
use rdns_server.Base.Int.{ℤ}
use rdns_server.Base.Exec.{Exec, or_raise, >>=-eq-ok}
use rdns_server.Coredns.Etcd.{Kv}
use rdns_server.Etcdv3.Names.{get_token_path}
use rdns_server.Etcdv3.Client.{Client, Config, Error, empty_record}
use rdns_server.Etcdv3.Client.Laws.{StoreLaws}
use rdns_server.Etcdv3.Leases.{first, wrapped, add_text, current_token, set_token}

module _ {S : Type 0} where
  add_text-ok :
      {A : Type 0} (text : Bytes) (x : Result Error A × S) (t : S) (a : A)
      → add_text text x ≡ (ok a, t)
      → x ≡ (ok a, t)
  unfolding add_text
  add_text-ok text (ok y, s) t a h = h
  add_text-ok text (err e, s) t a h = absurd (cc)

  or_raise-ok :
      {A : Type 0} (e : Error) (o : Option A) (s t : S) (a : A)
      → or_raise e o s ≡ (ok a, t)
      → (o ≡ some a) × (t ≡ s)
  or_raise-ok e none s t a h = absurd (cc)
  or_raise-ok e (some x) s t a h = (cc, cc)

  wrapped-ok :
      {A : Type 0} (text : Bytes) (m : Exec Error S A) (s t : S) (a : A)
      → wrapped text m s ≡ (ok a, t)
      → m s ≡ (ok a, t)
  unfolding wrapped
  wrapped-ok text m s t a h = add_text-ok text (m s) t a h

module _ (c : Client) (laws : StoreLaws c) (b : Config) where
  view-first :
      (fqdn : Bytes) (kvs : List Kv) (kv : Kv) (s u : c.State)
      → c.get (get_token_path fqdn) s ≡ (ok kvs, u)
      → first kvs ≡ some kv
      → laws.view s (get_token_path fqdn) ≡ some (kv.value, kv.lease)
  view-first fqdn [] kv s u h e = absurd (cc)
  view-first fqdn (x ∷ kvs) kv s u h e =
      let p : x ≡ kv = cc in rw (← p) (laws.get-view (get_token_path fqdn) x kvs s u h)

  pair : {v w : Bytes} {m n : ℕ} → v ≡ w → m ≡ n → ◌≡◌ {A = Bytes × ℕ} (v, m) (w, n)
  pair p q = cc

  current_parts :
      (fqdn token : Bytes) (lease : ℕ) (seconds left : ℤ) (kvs : List Kv) (kv : Kv)
      (s u v w t : c.State)
      → c.get (get_token_path fqdn) s ≡ (ok kvs, u)
      → first kvs ≡ some kv
      → v ≡ u
      → c.time_to_live kv.lease v ≡ (ok left, w)
      → ◌≡◌ {A = Result Error (Bytes × ℕ × ℤ) × c.State}
          (ok (kv.value, kv.lease, left), w)
          (ok (token, lease, seconds), t)
      → (laws.view s (get_token_path fqdn) ≡ some (token, lease))
        × ((j : Bytes) → laws.view t j ≡ laws.view s j)
  current_parts fqdn token lease seconds left kvs kv s u v w t got head still i j =
      let value : kv.value ≡ token = cc in
      let number : kv.lease ≡ lease = cc in
      let last : w ≡ t = cc in
      (
        view-first fqdn kvs kv s u got head ∙ ap some (pair value number),
        (λ k.
            let idle : laws.view w k ≡ laws.view v k =
              laws.view-time_to_live kv.lease left v w i k in
            let read : laws.view u k ≡ laws.view s k =
              laws.view-get (get_token_path fqdn) kvs s u got k in
            ap (λ x. laws.view x k) (sym last) ∙ idle ∙ ap (λ x. laws.view x k) still ∙ read),
      )

  view-current_token :
      (fqdn token : Bytes) (lease : ℕ) (seconds : ℤ) (s t : c.State)
      → current_token c b fqdn true s ≡ (ok (token, lease, seconds), t)
      → (laws.view s (get_token_path fqdn) ≡ some (token, lease))
        × ((j : Bytes) → laws.view t j ≡ laws.view s j)
  unfolding current_token
  view-current_token fqdn token lease seconds s t h =
      let (kvs, u, p, q) =
        >>=-eq-ok (wrapped (codes "empty") (c.get (get_token_path fqdn))) _ s t _ h in
      let (kv, v, x, y) =
        >>=-eq-ok (or_raise (empty_record (get_token_path fqdn)) (first kvs)) _ u t _ q in
      let (left, w, i, j) = >>=-eq-ok (c.time_to_live kv.lease) _ v t _ y in
      let got = wrapped-ok (codes "empty") (c.get (get_token_path fqdn)) s u kvs p in
      let (head, still) = or_raise-ok (empty_record (get_token_path fqdn)) (first kvs) u v kv x in
      current_parts fqdn token lease seconds left kvs kv s u v w t got head still i j

  -- A put of what is there changes nothing.
  put_back :
      (k v : Bytes) (l : ℕ) (s u t : c.State)
      → laws.view s k ≡ some (v, l)
      → ((j : Bytes) → laws.view u j ≡ laws.view s j)
      → c.put k v l u ≡ (ok tt, t)
      → (j : Bytes) → laws.view t j ≡ laws.view s j
  put_back k v l s u t there kept done j = elim (Bool-cases (same k j)) [
    | inl e ↦
        laws.view-put k v l u t done j ∙ rw e (sym there) ∙ ap (laws.view s) ((same_iff k j).0 e)
    | inr e ↦ laws.view-put k v l u t done j ∙ rw e (kept j)
  ]

  -- Setting a token that is there writes it back as it was: its value and its lease, which is the one
  -- returned, stay, and so does what is under every other key. The store obeys the laws of reads and puts.
  pub set_token-keeps :
      (fqdn : Bytes) (lease : ℕ) (seconds : ℤ) (s t : c.State)
      → set_token c b fqdn true s ≡ (ok (lease, seconds), t)
      → ((token : Bytes) × (laws.view s (get_token_path fqdn) ≡ some (token, lease)))
        × ((j : Bytes) → laws.view t j ≡ laws.view s j)
  unfolding set_token
  set_token-keeps fqdn lease seconds s t h =
      let (current, u, p, q) = >>=-eq-ok (current_token c b fqdn true) _ s t _ h in
      let (done, v, x, y) =
        >>=-eq-ok (wrapped (codes "set") (c.put (get_token_path fqdn) current.0 current.1)) _ u t _
          q in
      let put =
        wrapped-ok (codes "set") (c.put (get_token_path fqdn) current.0 current.1) u v done x in
      let (before, kept) = view-current_token fqdn current.0 current.1 current.2 s u p in
      let number : current.1 ≡ lease = cc in
      let last : v ≡ t = cc in
      (
        (current.0, before ∙ ap (λ n. some (current.0, n)) number),
        (λ j.
            rw (← last)
              (put_back (get_token_path fqdn) current.0 current.1 s u v before kept put j)),
      )
