-- ===== src/RdnsClient/Applied.antt =====
-- When ApplyDomain of client/rdns_client.go has nothing to do, and what CreateDomain stores.
use mathlib.Core.List.{Permᴰ}
use mathlib.Core.List.Permᴰ.{nil, cons, swap, trans}
use rdns_server.Base.{
  ◌≡◌, refl, sym, ap, ◌∙◌, inl, inr, Bool, true, false, List, [], ◌∷◌, Option, none, some, Bytes,
  codes, same_refl, Result, ok, err, arith, Bool-cases,
}
use rdns_server.Base.Exec.{Exec, lift, >>=-eq-ok, >>=-of-ok}
use rdns_server.RdnsClient.Wire.{
  World, Data, Reply, Request, Secret, Error, Kube, not_found, already_exists, other,
}
use rdns_server.RdnsClient.{
  Settings, created, wrapped, wrap_answer, request, build_url, cname_path, encoded, options_of,
  secret_key, kube_answer, set_secret, secret_of, perform, get_secret, get_domain, apply_to,
  apply_domain, name_or_empty, create_domain,
}
use rdns_server.RdnsClient.Sorting.{
  at_most, insert_sorted, sort, sorted, same_list, deep_equal_hosts, deep_equal_map,
}

at_most_total : (s t : Bytes) → at_most s t ≡ false → at_most t s ≡ true
unfolding at_most
at_most_total [] t h = absurd (cc)
at_most_total (x ∷ s) [] h = refl
at_most_total (x ∷ s) (y ∷ t) h = ground (arith, at_most_total s t)

at_most_antisym : (s t : Bytes) → at_most s t ≡ true → at_most t s ≡ true → s ≡ t
unfolding at_most
at_most_antisym [] [] h k = refl
at_most_antisym [] (y ∷ t) h k = absurd (cc)
at_most_antisym (x ∷ s) [] h k = absurd (cc)
at_most_antisym (x ∷ s) (y ∷ t) h k = ground (arith, at_most_antisym s t)

at_most_trans : (s t u : Bytes) → at_most s t ≡ true → at_most t u ≡ true → at_most s u ≡ true
unfolding at_most
at_most_trans [] t u h k = refl
at_most_trans (x ∷ s) [] u h k = absurd (cc)
at_most_trans (x ∷ s) (y ∷ t) [] h k = absurd (cc)
at_most_trans (x ∷ s) (y ∷ t) (z ∷ u) h k = ground (arith, at_most_trans s t u)

-- Inserting a greater element and then a lesser one, or the other way around.
insert_sorted-less :
    (x y : Bytes) (l : List Bytes)
    → at_most x y ≡ true
    → at_most y x ≡ false
    → insert_sorted x (insert_sorted y l) ≡ insert_sorted y (insert_sorted x l)
unfolding insert_sorted
insert_sorted-less x y [] p q = rw (p, q) refl
insert_sorted-less x y (z ∷ l) p q = elim (Bool-cases (at_most y z)) [
  | inl e ↦ rw (e, at_most_trans x y z p e, p, q, e) refl
  | inr e ↦ elim (Bool-cases (at_most x z)) [
    | inl f ↦ rw (e, f, q, e) refl
    | inr f ↦ rw (e, f, e) (ap (λ m. z ∷ m) (insert_sorted-less x y l p q))
  ]
]

insert_sorted-swap :
    (x y : Bytes) (l : List Bytes)
    → insert_sorted x (insert_sorted y l) ≡ insert_sorted y (insert_sorted x l)
insert_sorted-swap x y l = elim (Bool-cases (at_most x y)) [
  | inl p ↦ elim (Bool-cases (at_most y x)) [
    | inl q ↦ rw (at_most_antisym x y p q) refl
    | inr q ↦ insert_sorted-less x y l p q
  ]
  | inr p ↦ sym (insert_sorted-less y x l (at_most_total x y p) p)
]

-- Sorting forgets the order.
pub sort-Permᴰ : (xs ys : List Bytes) → Permᴰ xs ys → sort xs ≡ sort ys
unfolding sort
sort-Permᴰ _ _ nil = refl
sort-Permᴰ _ _ (cons {b = b} {l₁ = l₁} e p) =
    ap (λ x. insert_sorted x (sort l₁)) e ∙ ap (insert_sorted b) (sort-Permᴰ _ _ p)
sort-Permᴰ _ _ (swap {b = b} {b' = b'} {l = l} e f) =
    ap (λ x. insert_sorted x (insert_sorted b (sort l))) e
    ∙ ap (λ x. insert_sorted b' (insert_sorted x (sort l))) f
    ∙ insert_sorted-swap b' _ (sort l)
sort-Permᴰ _ _ (trans p q) = sort-Permᴰ _ _ p ∙ sort-Permᴰ _ _ q

same_list_refl : (xs : List Bytes) → same_list xs xs ≡ true
unfolding same_list
same_list_refl [] = refl
same_list_refl (x ∷ xs) = ground (arith, same_refl x, same_list_refl xs)

pub failure_ok :
    {E A S : Type 0} {x : E} {a : A} {s t : S} → ◌≡◌ {A = Result E A × S} (err x, s) (ok a, t) → ⊥
failure_ok h = cc

module _ (w : World) (c : Settings) where
  -- Where the service has the same hosts, in whatever order, and the same sub-domains, applying them
  -- again sends no update: the answer is the stored name, which is not new, and nothing has changed
  -- since the question to the service. Reading the secret then succeeds and changes nothing.
  pub apply_domain_unchanged :
      (hosts served : List Bytes) (subs : Option (List (Bytes × Option (List Bytes)))) (d : Data)
      (cname : Bool) (fqdn token : Bytes) (s t : w.State)
      → Permᴰ served hosts
      → d.hosts ≡ some served
      → deep_equal_map d.sub_domain subs ≡ true
      → get_domain w c cname s ≡ (ok (some d), t)
      → get_secret w c t ≡ (ok (fqdn, token), t)
      → apply_domain w c (some hosts) subs cname s ≡ (ok (false, fqdn), t)
  unfolding apply_domain apply_to sorted deep_equal_hosts name_or_empty
  apply_domain_unchanged hosts served subs d cname fqdn token s t p h m g k =
      let e : deep_equal_hosts (sorted d.hosts) (sorted (some hosts)) ≡ true =
        rw (h, sort-Permᴰ served hosts p) (same_list_refl (sort hosts)) in
      >>=-of-ok (get_domain w c cname) (apply_to w c (some hosts) subs cname) s t (some d) g
      ∙ rw (e, m, k) refl

  wrap_answer-ok :
      {A : Type 0} (text : Bytes) (x : Result Error A × w.State) (a : A) (t : w.State)
      → wrap_answer w c text x ≡ (ok a, t)
      → x ≡ (ok a, t)
  unfolding wrap_answer
  wrap_answer-ok text (ok b, s) a t h = h
  wrap_answer-ok text (err e, s) a t h = absurd (failure_ok h)

  wrapped-ok :
      {A : Type 0} (text : Bytes) (m : Exec Error w.State A) (s t : w.State) (a : A)
      → wrapped w c text m s ≡ (ok a, t)
      → m s ≡ (ok a, t)
  unfolding wrapped
  wrapped-ok text m s t a h = wrap_answer-ok text (m s) a t h

  -- The secrets of the cluster, by namespace and name, and what writing one does. (The lister that reads
  -- them may lag behind.)
  pub record SecretLaws : Type 0 where
    pub secret_at : w.State → Bytes → Bytes → Option Secret
    pub secret_at-create :
        (x : Secret) (s t : w.State)
        → w.create_secret x s ≡ (ok tt, t)
        → secret_at t x.namespace x.name ≡ some x
    pub secret_at-update :
        (x : Secret) (s t : w.State)
        → w.update_secret x s ≡ (ok tt, t)
        → secret_at t x.namespace x.name ≡ some x

  module _ (laws : SecretLaws) where
    kube_answer-ok :
        (x : Result Kube (Unit {0}) × w.State) (t : w.State)
        → kube_answer w c x ≡ (ok tt, t)
        → x ≡ (ok tt, t)
    unfolding kube_answer
    kube_answer-ok (ok a, s) t h = cc
    kube_answer-ok (err e, s) t h = absurd (cc)

    created-secret_at :
        (x : Secret) (s t : w.State) (r : Result Kube (Unit {0}) × w.State)
        → w.create_secret x s ≡ r
        → created w c x r ≡ (ok tt, t)
        → laws.secret_at t x.namespace x.name ≡ some x
    unfolding created kube_answer
    created-secret_at x s t (ok a, u) e h =
        laws.secret_at-create x s t (e ∙ ap (λ v. (ok tt, v)) (same_state h))
      where
        same_state : ◌≡◌ {A = Result Error (Unit {0}) × w.State} (ok tt, u) (ok tt, t) → u ≡ t
        same_state q = cc
    created-secret_at x s t (err already_exists, u) e h =
        laws.secret_at-update x u t (kube_answer-ok (w.update_secret x u) t h)
    created-secret_at x s t (err not_found, u) e h = absurd (failure_ok h)
    created-secret_at x s t (err (other y), u) e h = absurd (failure_ok h)

    -- After CreateDomain succeeded, the secret "rdns-token" of the cluster's namespace has the name that it
    -- returns, and the token that came with that name in the service's reply. A secret that was written is there.
    pub create_domain-secret_at :
        (hosts : Option (List Bytes)) (cname : Bool) (fqdn : Bytes) (s t : w.State)
        → create_domain w c hosts cname s ≡ (ok fqdn, t)
        → (req : Request) × (reply : Reply) × (u : w.State) × (v : w.State) × (perform w c req u
            ≡ (ok reply, v))
          × (reply.domain.fqdn ≡ fqdn)
          × (laws.secret_at t c.cluster_name secret_key
              ≡ some (record {
                namespace = c.cluster_name;
                name = codes "rdns-token";
                token = reply.token;
                fqdn = fqdn;
              }))
    unfolding create_domain set_secret secret_of
    create_domain-secret_at hosts cname fqdn s t h =
        let (options, s1, p1, q1) = >>=-eq-ok (lift (options_of cname hosts none)) _ s t fqdn h in
        let (body, s2, p2, q2) = >>=-eq-ok (lift (encoded w c (w.encode options))) _ s1 t fqdn q1 in
        let (req, s3, p3, q3) =
          >>=-eq-ok
            (wrapped w c (codes "CreateDomain: failed to build a request") (
              lift
                (request w c (codes "POST") (build_url c.base [] (cname_path cname)) (some body))))
            _ s2 t fqdn q2 in
        let (reply, s4, p4, q4) =
          >>=-eq-ok
            (wrapped w c (codes "CreateDomain: failed to execute a request") (perform w c req)) _ s3
            t fqdn q3 in
        let (done, s5, p5, q5) = >>=-eq-ok (set_secret w c reply) _ s4 t fqdn q4 in
        (
          req,
          reply,
          s3,
          s4,
          wrapped-ok (codes "CreateDomain: failed to execute a request") (perform w c req) s3 s4
              reply p4,
          same_name reply fqdn s5 t q5,
          created-secret_at (secret_of w c reply) s4 t (w.create_secret (secret_of w c reply) s4)
                refl (p5 ∙ ap (λ u. (ok tt, u)) (same_end reply fqdn s5 t q5))
              ∙ ap
                  (λ n. some (record {
                    namespace = c.cluster_name;
                    name = codes "rdns-token";
                    token = reply.token;
                    fqdn = n;
                  }))
                  (same_name reply fqdn s5 t q5),
        )
      where
        same_name :
            (reply : Reply) (fqdn : Bytes) (u t : w.State)
            → ◌≡◌ {A = Result Error Bytes × w.State} (ok reply.domain.fqdn, u) (ok fqdn, t)
            → reply.domain.fqdn ≡ fqdn
        same_name reply fqdn u t q = cc

        same_end :
            (reply : Reply) (fqdn : Bytes) (u t : w.State)
            → ◌≡◌ {A = Result Error Bytes × w.State} (ok reply.domain.fqdn, u) (ok fqdn, t)
            → u ≡ t
        same_end reply fqdn u t q = cc
