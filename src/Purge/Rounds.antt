-- ===== src/Purge/Rounds.antt =====
-- One round of the loop over the expired tokens in purge/purge.go.
use rdns_server.Base.{
  ◌≡◌, ◌≢◌, refl, ◌⊎◌, inl, inr, List, [], ◌∷◌, same, same_iff, Result, ok, err, arith, Bool-cases,
}
use rdns_server.Base.Exec.{Exec, Exec-cases}
use rdns_server.Model.{Domain}
use rdns_server.Database.{Database, Token, Row}
use rdns_server.Service.{Backend}
use rdns_server.Route53.Domains.{only_name}
use rdns_server.Purge.{logged, delete_if, delete_found, delete_texts, delete_all_texts, purge_token}

module _ (b : Backend) (db : Database b.State) where
  -- There was nothing to delete, since the lookup failed or found no name, or it is deleted.
  abbrev pub Cleared :
      Exec b.Error b.State Domain → Exec b.Error b.State (Unit {0}) → b.State → b.State → Type 0
  Cleared lookup delete s t =
      ((e : b.Error) × (lookup s ≡ (err e, t)))
      ⊎ ((d : Domain) × (lookup s ≡ (ok d, t)) × (d.fqdn ≡ []))
      ⊎ ((d : Domain) × (u : b.State) × (lookup s ≡ (ok d, u))
          × (d.fqdn ≢ [])
          × (delete u ≡ (ok tt, t)))

  -- A name was found, and its deletion failed.
  abbrev pub Kept :
      Exec b.Error b.State Domain
      → Exec b.Error b.State (Unit {0})
      → b.State
      → b.Error
      → b.State
      → Type 0
  Kept lookup delete s e t =
      (d : Domain) × (u : b.State) × (lookup s ≡ (ok d, u))
      × (d.fqdn ≢ [])
      × (delete u ≡ (err e, t))

  -- The state after the TXT records of these rows were deleted, or their deletion failed.
  unfoldable pub without_texts : List Row → b.State → b.State
  without_texts [] s = s
  without_texts (r ∷ rs) s = without_texts rs (b.delete_text (only_name r.fqdn) s).1

  delete_found-cases :
      (lookup : Exec b.Error b.State Domain) (delete : Exec b.Error b.State (Unit {0}))
      (s : b.State)
      → ((t : b.State) × Cleared lookup delete s t
          × (delete_found b db lookup delete s ≡ (ok tt, t)))
        ⊎ ((e : b.Error) × (t : b.State) × Kept lookup delete s e t
            × (delete_found b db lookup delete s ≡ (err e, t)))
  unfolding delete_found delete_if
  delete_found-cases lookup delete s = elim (Exec-cases lookup s) [
    | inr (e, t, h) ↦ inl (t, inl (e, h), rw h refl)
    | inl (d, u, h) ↦ elim (Bool-cases (same d.fqdn [])) [
      | inl p ↦ inl (u, inr (inl (d, h, (same_iff d.fqdn []).0 p)), rw (h, p) refl)
      | inr p ↦
          let named : d.fqdn ≢ [] = λ q. ground (arith, same_iff d.fqdn []) in
          elim (Exec-cases delete u) [
            | inl (_, t, k) ↦ inl (t, inr (inr (d, u, h, named, k)), rw (h, p, k) refl)
            | inr (e, t, k) ↦ inr (e, t, (d, u, h, named, k), rw (h, p, k) refl)
          ]
    ]
  ]

  delete_texts-without :
      (rs : List Row) (s : b.State) → delete_texts b db rs s ≡ (ok tt, without_texts rs s)
  unfolding delete_texts without_texts logged
  delete_texts-without [] s = refl
  delete_texts-without (r ∷ rs) s = delete_texts-without rs (b.delete_text (only_name r.fqdn) s).1

  -- The three ends of a round: at the A records, at the CNAME record, or with the deletion of the TXT
  -- records and the token.
  abbrev pub Round : Token → b.State → Result b.Error (Unit {0}) × b.State → Type 0
  Round token s x =
      let o = only_name token.fqdn in
      ((e : b.Error) × (t : b.State) × Kept (b.get o) (b.delete o) s e t × (x ≡ (err e, t)))
      ⊎ ((u : b.State) × (e : b.Error) × (t : b.State) × Cleared (b.get o) (b.delete o) s u
          × Kept (b.get_cname o) (b.delete_cname o) u e t
          × (x ≡ (err e, t)))
      ⊎ ((u : b.State) × (v : b.State) × Cleared (b.get o) (b.delete o) s u
          × Cleared (b.get_cname o) (b.delete_cname o) u v
          × (x ≡ (
            ok tt,
            (db.delete_token token.token (
                without_texts (db.query_expired_txts token.id v).0.0
                  (db.query_expired_txts token.id v).1)).1,
          )))

  -- A round for an expired token that finds A records of its name and cannot delete them ends there, with
  -- the state that this deletion left; so does one that finds a CNAME record and cannot delete it. A round
  -- in which both are gone deletes the TXT records that the query gives, whether or not this succeeds,
  -- and then the token.
  pub purge_token_lem : (token : Token) (s : b.State) → Round token s (purge_token b db token s)
  unfolding purge_token logged delete_all_texts
  purge_token_lem token s =
      let o = only_name token.fqdn in
      elim (delete_found-cases (b.get o) (b.delete o) s) [
        | inr (e, t, k, h) ↦ inl (e, t, k, rw h refl)
        | inl (u, k, h) ↦ elim (delete_found-cases (b.get_cname o) (b.delete_cname o) u) [
          | inr (e, t, l, i) ↦ inr (inl (u, e, t, k, l, rw (h, i) refl))
          | inl (v, l, i) ↦ inr (
              inr (
                u,
                v,
                k,
                l,
                rw
                    (
                      h,
                      i,
                      delete_texts-without (db.query_expired_txts token.id v).0.0
                          (db.query_expired_txts token.id v).1,
                    )
                    refl,
              ))
        ]
      ]
