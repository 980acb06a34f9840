-- ===== src/Etcdv3/Sync/View.antt =====
-- What `syncRecords` does to the store, key by key.
use rdns_server.Base.{
  ℕ, Bool, true, false, ◌||◌, ◌&&◌, not, List, [], ◌∷◌, ◌++◌, none, some, Bytes, ◌≡◌, ◌≢◌, refl,
  sym, ap, ◌∙◌, same, same_iff, same_refl, if◌then◌else◌, ok, arith, All, inl, inr, Bool-cases,
}
use rdns_server.Base.Exec.{>>=-eq-ok}
use rdns_server.Text.{slash, replace}
use rdns_server.Text.RoundTrip.{Lacks}
use rdns_server.Etcdv3.Names.{format_key, format_value}
use rdns_server.Etcdv3.Client.{Client, Config, mem, slice_to_map}
use rdns_server.Etcdv3.Client.Laws.{StoreLaws, VisitsAll}
use rdns_server.Etcdv3.Sync.{host_key, delete_stale, put_missing, sync_records}

pub mem-slice_to_map : (k : Bytes) (ss : List Bytes) → mem k (slice_to_map ss) ≡ mem k ss
unfolding slice_to_map mem
mem-slice_to_map k [] = refl
mem-slice_to_map k (s ∷ ss) =
    ground (arith, mem-slice_to_map k ss, same_iff k s, mem-slice_to_map s ss)

-- Hosts are told apart by their keys, where they hold no underscore.
format_key-injective :
    (h k : Bytes) → Lacks b'_' h → Lacks b'_' k → format_key h ≡ format_key k → h ≡ k
unfolding format_key replace
format_key-injective [] [] _ _ e = refl
format_key-injective [] (y ∷ k) _ _ e = cc
format_key-injective (x ∷ h) [] _ _ e = cc
format_key-injective (x ∷ h) (y ∷ k) (hx, hh) (hy, hk) e =
    ground (arith, format_key-injective h k hh hk)

append-injective : (p s t : Bytes) → p ++ s ≡ p ++ t → s ≡ t
append-injective [] s t e = e
append-injective (x ∷ p) s t e = append-injective p s t (cc)

pub host_key-injective :
    (path h k : Bytes)
    → Lacks b'_' h
    → Lacks b'_' k
    → same (host_key path h) (host_key path k) ≡ same h k
unfolding host_key
host_key-injective path h k lh lk = elim (Bool-cases (same h k)) [
  | inl e ↦ rw (e, (same_iff h k).0 e) (same_refl _)
  | inr e ↦ ground (
    arith,
    e,
    same_iff h k,
    same_iff (path ++ slash ∷ format_key h) (path ++ slash ∷ format_key k),
    append-injective path (slash ∷ format_key h) (slash ∷ format_key k),
    format_key-injective h k lh lk,
  )
]

-- A host of the list that `kept` does not have has the key `j`.
touches : List Bytes → Bytes → List Bytes → Bytes → Bool
touches kept path [] j = false
touches kept path (r ∷ rs) j =
    (not (mem r kept) && same (host_key path r) j) || touches kept path rs j

touches-host_key :
    (kept : List Bytes) (path : Bytes) (rs : List Bytes) (k : Bytes)
    → All (Lacks b'_') rs
    → Lacks b'_' k
    → touches kept path rs (host_key path k) ≡ (mem k rs && not (mem k kept))
unfolding touches mem
touches-host_key kept path [] k a n = refl
touches-host_key kept path (r ∷ rs) k (ar, a) n = ground (
  arith,
  touches-host_key kept path rs k a n,
  host_key-injective path r k ar n,
  same_iff r k,
  same_iff k r,
)

touches_none :
    (kept : List Bytes) (path : Bytes) (rs : List Bytes) (j : Bytes)
    → ((k : Bytes) → host_key path k ≢ j)
    → touches kept path rs j ≡ false
unfolding touches
touches_none kept path [] j h = refl
touches_none kept path (r ∷ rs) j h =
    ground (arith, touches_none kept path rs j h, same_iff (host_key path r) j, h r)

pub plain_of_mem :
    (P : Bytes → Type 0) (xs : List Bytes) → ((k : Bytes) → mem k xs ≡ true → P k) → All P xs
unfolding mem
plain_of_mem P [] h = tt
plain_of_mem P (x ∷ xs) h = (h x (rw same_refl), plain_of_mem P xs (λ k m. h k (ground (arith, m))))

pub plain_at_mem :
    (P : Bytes → Type 0) (xs : List Bytes) (k : Bytes) → All P xs → mem k xs ≡ true → P k
unfolding mem
plain_at_mem P [] k a m = absurd (cc)
plain_at_mem P (x ∷ xs) k (ax, a) m = elim (Bool-cases (same k x)) [
  | inl e ↦ rw ((same_iff k x).0 e) ax
  | inr e ↦ plain_at_mem P xs k a (ground (arith, e))
]

module _ (c : Client) (laws : StoreLaws c) where
  view-delete_stale :
      (left : List Bytes) (path : Bytes) (rs : List Bytes) (s t : c.State) (j : Bytes)
      → delete_stale c left path rs s ≡ (ok tt, t)
      → laws.view t j ≡ (if touches left path rs j then none else laws.view s j)
  unfolding delete_stale touches
  view-delete_stale left path [] s t j h = sym (ap (λ x. laws.view x.1 j) h)
  view-delete_stale left path (r ∷ rs) s t j h = elim (Bool-cases (mem r left)) [
    | inl e ↦ rw e (view-delete_stale left path rs s t j (rw (e, delete_stale) at h))
    | inr e ↦
        let (u, s', p, q) =
          >>=-eq-ok (c.delete (host_key path r)) (λ _. delete_stale c left path rs) s t tt
            (rw (e, delete_stale) at h) in
        ground (
          arith,
          e,
          view-delete_stale left path rs s' t j q,
          laws.view-delete (host_key path r) s s' p j,
        )
  ]

  -- The pair under the key of the last host of the list, that is not in `right`, with that key.
  view-put_missing :
      (right : List Bytes) (path : Bytes) (lease : ℕ) (ls : List Bytes) (s t : c.State) (j : Bytes)
      → put_missing c right path lease ls s ≡ (ok tt, t)
      → touches right path ls j ≡ false
      → laws.view t j ≡ laws.view s j
  unfolding put_missing touches
  view-put_missing right path lease [] s t j h n = sym (ap (λ x. laws.view x.1 j) h)
  view-put_missing right path lease (l ∷ ls) s t j h n = elim (Bool-cases (mem l right)) [
    | inl e ↦ view-put_missing right path lease ls s t j (rw (e, put_missing) at h) (ground arith)
    | inr e ↦
        let (u, s', p, q) =
          >>=-eq-ok (c.put (host_key path l) (format_value l) lease)
            (λ _. put_missing c right path lease ls) s t tt (rw (e, put_missing) at h) in
        ground (
          arith,
          view-put_missing right path lease ls s' t j q,
          laws.view-put (host_key path l) (format_value l) lease s s' p j,
        )
  ]

  -- A host that is put: no other host that is put has its key.
  view-put_missing_host :
      (right : List Bytes) (path : Bytes) (lease : ℕ) (ls : List Bytes) (s t : c.State) (k : Bytes)
      → put_missing c right path lease ls s ≡ (ok tt, t)
      → All (Lacks b'_') ls
      → Lacks b'_' k
      → laws.view t (host_key path k) ≡ (
          if mem k ls && not (mem k right)
          then some (format_value k, lease)
          else laws.view s (host_key path k))
  unfolding put_missing mem
  view-put_missing_host right path lease [] s t k h a n =
      sym (ap (λ x. laws.view x.1 (host_key path k)) h)
  view-put_missing_host right path lease (l ∷ ls) s t k h (al, a) n =
      elim (Bool-cases (mem l right)) [
        | inl e ↦ ground (
          arith,
          e,
          same_iff k l,
          view-put_missing_host right path lease ls s t k (rw (e, put_missing) at h) a n,
        )
        | inr e ↦
            let (u, s', p, q) =
              >>=-eq-ok (c.put (host_key path l) (format_value l) lease)
                (λ _. put_missing c right path lease ls) s t tt (rw (e, put_missing) at h) in
            ground (
              arith,
              e,
              same_iff k l,
              same_iff l k,
              host_key-injective path l k al n,
              view-put_missing_host right path lease ls s' t k q a n,
              laws.view-put (host_key path l) (format_value l) lease s s' p (host_key path k),
            )
      ]

module _ (c : Client) (laws : StoreLaws c) (b : Config) (visits : VisitsAll b) where
  pub mem-visited : (k : Bytes) (ss : List Bytes) → mem k (b.order (slice_to_map ss)) ≡ mem k ss
  mem-visited k ss = visits (slice_to_map ss) k ∙ mem-slice_to_map k ss

  visited-Lacks :
      (ss : List Bytes) → All (Lacks b'_') ss → All (Lacks b'_') (b.order (slice_to_map ss))
  visited-Lacks ss a =
      plain_of_mem (Lacks b'_') (b.order (slice_to_map ss))
        (λ k m. plain_at_mem (Lacks b'_') ss k a (sym (mem-visited k ss) ∙ m))

  module _ (new old : List Bytes) (path : Bytes) (lease : ℕ) (s t : c.State)
      (synced : sync_records c b new old path lease s ≡ (ok tt, t))
      (plain_new : All (Lacks b'_') new) (plain_old : All (Lacks b'_') old) where
    -- After a synchronisation that succeeds: a host of both lists has what it had under its key, a new
    -- host has its value and the lease, a host that is only in the old list has nothing, and any other
    -- host has what it had. The hosts are any without an underscore, as addresses are; the store obeys
    -- the laws of puts and deletes, and `range` visits every key of a map.
    pub sync_records-host :
        (k : Bytes)
        → Lacks b'_' k
        → laws.view t (host_key path k) ≡ (
            if mem k new
            then (if mem k old then laws.view s (host_key path k) else some (format_value k, lease))
            else if mem k old
            then none
            else laws.view s (host_key path k))
    unfolding sync_records
    sync_records-host k n =
        let left = slice_to_map new in
        let right = slice_to_map old in
        let (u, m, p, q) =
          >>=-eq-ok (delete_stale c left path (b.order right))
            (λ _. put_missing c right path lease (b.order left)) s t tt synced in
        ground (
          arith,
          view-put_missing_host c laws right path lease (b.order left) m t k q
              (visited-Lacks new plain_new) n,
          view-delete_stale c laws left path (b.order right) s m (host_key path k) p,
          touches-host_key left path (b.order right) k (visited-Lacks old plain_old) n,
          mem-visited k new,
          mem-visited k old,
          mem-slice_to_map k new,
          mem-slice_to_map k old,
        )

module _ (c : Client) (laws : StoreLaws c) (b : Config) where
  -- A synchronisation that succeeds leaves every key alone that is not the key of a host below its
  -- path. The store obeys the laws of puts and deletes.
  pub sync_records-other :
      (new old : List Bytes) (path : Bytes) (lease : ℕ) (s t : c.State) (j : Bytes)
      → sync_records c b new old path lease s ≡ (ok tt, t)
      → ((k : Bytes) → host_key path k ≢ j)
      → laws.view t j ≡ laws.view s j
  unfolding sync_records
  sync_records-other new old path lease s t j synced h =
      let left = slice_to_map new in
      let right = slice_to_map old in
      let (u, m, p, q) =
        >>=-eq-ok (delete_stale c left path (b.order right))
          (λ _. put_missing c right path lease (b.order left)) s t tt synced in
      ground (
        arith,
        view-put_missing c laws right path lease (b.order left) m t j q
            (touches_none right path (b.order left) j h),
        view-delete_stale c laws left path (b.order right) s m j p,
        touches_none left path (b.order right) j h,
      )
