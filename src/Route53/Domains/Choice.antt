-- ===== src/Route53/Domains/Choice.antt =====
-- The name that Set and SetCNAME of backend/route53/route53.go choose.
use rdns_server.Base.{
  ℕ, zero, suc, ◌+◌, ◌≤◌, ◌<◌, ◌≡◌, ◌≢◌, refl, ◌∙◌, Bool, true, false, not, ◌&&◌, [], ◌∷◌, Bytes,
  same, ok, err, arith, inl, inr, Bool-cases,
}
use rdns_server.Base.Exec.{Exec, >>=-of-ok}
use rdns_server.Text.{split, dot}
use rdns_server.Model.{Domain, DomainOptions}
use rdns_server.Database.{Database}
use rdns_server.Etcdv3.Names.{sub_name}
use rdns_server.Route53.{Error, generate_name, HostedZone, Settings, of_database, wrapped}
use rdns_server.Route53.Filters.{first_piece}
use rdns_server.Route53.Domains.{
  only_name, is_frozen, is_unused, choose_name, freeze_chosen, freeze_name,
}

named : (k n : Bytes) → same (sub_name k n) [] ≡ false
unfolding same
named [] n = refl
named (c ∷ k) n = refl

module _ {S : Type 0} (z : HostedZone S) (db : Database S) (b : Settings S)
    (lookup : DomainOptions → Exec Error S Domain) (s : S) (frozen used : Bytes → Bool) where
  abbrev pub candidate : ℕ → Bytes
  candidate k = sub_name (b.draw k) b.zone

  -- The slug of the draw is not frozen, and its name is not used.
  unfoldable pub usable : ℕ → Bool
  usable k = not (frozen (first_piece (split dot (candidate k)))) && not (used (candidate k))

  module _ (reads_frozen : (x : Bytes) → is_frozen z db b x s ≡ (ok (frozen x), s))
      (reads_used : (n : Bytes)
        → is_unused z db b (lookup (only_name n)) s ≡ (ok (not (used n)), s)) where
    choose_name-skip :
        (left i : ℕ) (fqdn : Bytes)
        → usable i ≡ false
        → choose_name z db b lookup (suc left) i fqdn s
          ≡ choose_name z db b lookup left (i + 1) fqdn s
    unfolding choose_name usable
    choose_name-skip left i fqdn u =
        let name = candidate i in
        elim (Bool-cases (frozen (first_piece (split dot name)))) [
          | inl e ↦ rw (reads_frozen (first_piece (split dot name)), e) refl
          | inr e ↦
              let taken : used name ≡ true = ground (arith, u, e) in
              rw (reads_frozen (first_piece (split dot name)), e, reads_used name, taken) refl
        ]

    choose_name-take :
        (left i : ℕ) (fqdn : Bytes)
        → usable i ≡ true
        → choose_name z db b lookup (suc left) i fqdn s ≡ (ok (candidate i), s)
    unfolding choose_name usable
    choose_name-take left i fqdn u =
        let name = candidate i in
        let cold : frozen (first_piece (split dot name)) ≡ false = ground (arith, u) in
        let free : used name ≡ false = ground (arith, u) in
        rw (reads_frozen (first_piece (split dot name)), cold, reads_used name, free) refl

    choose_name-finds :
        (left i : ℕ) (fqdn : Bytes) (k : ℕ)
        → i ≤ k
        → k < i + left
        → usable k ≡ true
        → (j : ℕ) × (j ≤ k)
          × (usable j ≡ true)
          × (choose_name z db b lookup left i fqdn s ≡ (ok (candidate j), s))
    choose_name-finds zero i fqdn k l m u = absurd (omega arith)
    choose_name-finds (suc left) i fqdn k l m u = elim (Bool-cases (usable i)) [
      | inl e ↦ (i, l, e, choose_name-take left i fqdn e)
      | inr e ↦
          let other : i ≢ k = λ p. cc in
          let (j, n, v, c) = choose_name-finds left (i + 1) fqdn k (omega arith) (omega arith) u in
          (j, n, v, choose_name-skip left i fqdn e ∙ c)
    ]

    choose_name-gives_up :
        (left i : ℕ) (fqdn : Bytes)
        → ((k : ℕ) → i ≤ k → k < i + left → usable k ≡ false)
        → choose_name z db b lookup left i fqdn s ≡ (ok fqdn, s)
    unfolding choose_name
    choose_name-gives_up zero i fqdn h = refl
    choose_name-gives_up (suc left) i fqdn h =
        choose_name-skip left i fqdn (h i (omega arith) (omega arith))
        ∙ choose_name-gives_up left (i + 1) fqdn (λ k l m. h k (omega arith) (omega arith))

    inserted :
        (t : S) (i : ℕ)
        → db.insert_frozen (first_piece (split dot (candidate i))) s ≡ (ok tt, t)
        → freeze_chosen z db b (candidate i) s ≡ (ok (candidate i), t)
    unfolding freeze_chosen of_database wrapped
    inserted t i h = rw (named (b.draw i) b.zone, h, freeze_chosen) refl

    -- If one of the hundred draws is not frozen and its name not used, Set freezes such a draw, the
    -- given one or an earlier one, and goes on with its name. The lookups do not change what is kept
    -- and fail on no query for a frozen slug, and the insertion succeeds.
    pub freeze_name-finds :
        (insert : Bytes → S) (given : Bytes) (k : ℕ)
        → ((x : Bytes) → db.insert_frozen x s ≡ (ok tt, insert x))
        → k < 100
        → usable k ≡ true
        → (j : ℕ) × (j ≤ k)
          × (usable j ≡ true)
          × (freeze_name z db b lookup given s
              ≡ (ok (candidate j), insert (first_piece (split dot (candidate j)))))
    unfolding freeze_name
    freeze_name-finds insert given k inserts l u =
        let (j, n, v, c) = choose_name-finds 100 0 given k (omega arith) l u in
        (
          j,
          n,
          v,
          >>=-of-ok (choose_name z db b lookup 100 0 given) (freeze_chosen z db b) s s (candidate j)
                c
              ∙ inserted (insert (first_piece (split dot (candidate j)))) j
                  (inserts (first_piece (split dot (candidate j)))),
        )

    -- If each of the hundred draws is frozen or its name used, Set of options without a name ends with
    -- an error, and nothing is written. The lookups do not change what is kept and fail on no query for
    -- a frozen slug.
    pub freeze_name-gives_up :
        ((k : ℕ) → k < 100 → usable k ≡ false)
        → freeze_name z db b lookup [] s ≡ (err generate_name, s)
    unfolding freeze_name same
    freeze_name-gives_up h =
        >>=-of-ok (choose_name z db b lookup 100 0 []) (freeze_chosen z db b) s s []
          (choose_name-gives_up 100 0 [] (λ k _ l. h k l))
