-- ===== src/Coredns/Start/Examples.antt =====
-- setCPU on a machine with four CPUs.
use rdns_server.Base.{
  ℕ, ◌*◌, ◌/◌, ◌≤◌, ◌≡◌, ◌⊎◌, refl, true, [], none, codes, ok, err, arith, if◌then◌else◌, ◌==◌,
}
use rdns_server.Text.{has_suffix}
use rdns_server.Coredns.Start.{Error, Runtime, Input, ReadError, set_cpu}
use rdns_server.Coredns.Start.Cpu.{set_cpu_lem}

-- The state is the number of CPUs that are used; a setting of 0 changes nothing.
abbrev machine : Runtime ℕ
machine = record {
  Instance = Input;
  num_cpu = 4;
  gomaxprocs = λ n s. if n == 0 then s else n;
  share = λ cpus percent. cpus * percent / 100;
  read_file = λ p. err ReadError.missing;
  from_pipe = λ t. ok none;
  load = λ conf default. ok (record { contents = []; filepath = []; server_type = codes "dns" });
  start = λ input s. (ok input, s);
  set_port = λ p s. s;
}

half : set_cpu machine (codes "50%") 4 ≡ (ok tt, 2)
unfolding set_cpu
half = refl

-- A hundredth of four CPUs is none, and so the process keeps all four.
hundredth : set_cpu machine (codes "1%") 4 ≡ (ok tt, 4)
unfolding set_cpu
hundredth = refl

set_cpu_lem_example :
    ((e : Error) × (set_cpu machine (codes "50%") 4 ≡ (err e, 4)))
    ⊎ ((n : ℕ) × (set_cpu machine (codes "50%") 4 ≡ (ok tt, machine.gomaxprocs n 4))
        × (n ≤ 4)
        × ((has_suffix (codes "50%") (codes "%") ≡ true) ⊎ (1 ≤ n)))
set_cpu_lem_example = set_cpu_lem machine (codes "50%") 4 (omega arith)
