-- ===== src/Coredns/Hosts/Reverse.antt =====
-- How large the reverse zone is that SplitHostPort of coredns/plugin/normalize.go makes of a network.
use rdns_server.Base.{ℕ, ◌+◌, ◌-◌, ◌*◌, ◌/◌, ◌%◌, ◌==◌, ◌≡◌, ◌⊎◌, inl, inr, ◌||◌, leb, arith}
use rdns_server.Coredns.Hosts.{dropped_labels}

octets : (d : ℕ) → leb d ((d + d % 8) / 8 * 8) ≡ ((d % 8 == 0) || leb 8 (2 * (d % 8)))
octets d = ground arith

nibbles : (d : ℕ) → leb d ((d + d % 4) / 4 * 4) ≡ ((d % 4 == 0) || leb 4 (2 * (d % 4)))
nibbles d = ground arith

-- The zone, of the bits of the labels that are dropped, holds the network exactly if the network ends at
-- a label, or its mask leaves at least half of the bits of one: in a network with fewer bits of a label
-- left, the zone is a smaller one, within it. The labels have eight bits or four.
pub dropped_labels_lem :
    (ones bits size : ℕ)
    → (size ≡ 8) ⊎ (size ≡ 4)
    → leb (bits - ones) (dropped_labels ones bits size * size)
      ≡ (((bits - ones) % size == 0) || leb size (2 * ((bits - ones) % size)))
unfolding dropped_labels
dropped_labels_lem ones bits size (inl e) = rw e (octets (bits - ones))
dropped_labels_lem ones bits size (inr e) = rw e (nibbles (bits - ones))
