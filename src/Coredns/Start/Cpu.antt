-- ===== src/Coredns/Start/Cpu.antt =====
-- The number of CPUs that setCPU lets the process use.
use rdns_server.Base.{
  ℕ, ◌≤◌, ◌≡◌, ◌⊎◌, inl, inr, refl, Bool-cases, true, none, some, Option, Bytes, codes, ltb,
  Result-cases, ok, err, arith,
}
use rdns_server.Base.Int.{ℤ, pos, negsuc}
use rdns_server.Text.{has_suffix}
use rdns_server.Text.Numbers.{atoi}
use rdns_server.Coredns.Start.{Error, Runtime, bad_number, wanted, asked_cpu, use_cpu, set_cpu}

module _ {S : Type 0} (rt : Runtime S) where
  wanted-le : (e : Error) (o : Option ℤ) (n : ℕ) → wanted rt e 1 none o ≡ ok n → 1 ≤ n
  wanted-le e none n h = absurd cc
  wanted-le e (some (negsuc m)) n h = absurd cc
  wanted-le e (some (pos m)) n h = ground arith

  asked_cpu-le :
      (cpu : Bytes) (n : ℕ)
      → asked_cpu rt cpu ≡ ok n
      → (has_suffix cpu (codes "%") ≡ true) ⊎ (1 ≤ n)
  unfolding asked_cpu
  asked_cpu-le cpu n h = elim (Bool-cases (has_suffix cpu (codes "%"))) [
    | inl p ↦ inl p
    | inr p ↦ inr (wanted-le bad_number (atoi cpu) n (rw p at h))
  ]

  -- Where there is a CPU, setCPU fails and leaves the process as it is, or it sets a number of CPUs that is
  -- not above those there are, and not 0 unless the setting is a percentage.
  pub set_cpu_lem :
      (cpu : Bytes) (s : S)
      → 1 ≤ rt.num_cpu
      → ((e : Error) × (set_cpu rt cpu s ≡ (err e, s)))
        ⊎ ((n : ℕ) × (set_cpu rt cpu s ≡ (ok tt, rt.gomaxprocs n s))
            × (n ≤ rt.num_cpu)
            × ((has_suffix cpu (codes "%") ≡ true) ⊎ (1 ≤ n)))
  unfolding set_cpu use_cpu
  set_cpu_lem cpu s h = elim (Result-cases (asked_cpu rt cpu)) [
    | inr (e, p) ↦ inl (e, rw p refl)
    | inl (n, p) ↦ elim (Bool-cases (ltb rt.num_cpu n)) [
      | inl q ↦ inr (rt.num_cpu, rw (p, q) refl, omega arith, inr h)
      | inr q ↦ inr (n, rw (p, q) refl, ground arith, asked_cpu-le cpu n p)
    ]
  ]
