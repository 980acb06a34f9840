-- ===== src/Random/Examples.antt =====
-- Draws from buffers of four bytes, and one instance of each theorem.
use rdns_server.Base.{ℕ, ◌+◌, ◌%◌, ◌≤◌, ◌<◌, ◌≡◌, true, [], ◌∷◌, some, Bytes, length, All, arith}
use rdns_server.Random.{small_letters, bit_mask, buffer_size, is_drawn, letters}
use rdns_server.Random.Draws.{one_letter, count_drawn, letters-count_drawn, bit_mask_lem}

abbrev fresh : ℕ → Bytes
fresh k = 10 ∷ 63 ∷ 5 ∷ 1 ∷ []

enough : 3 ≤ count_drawn fresh small_letters 3 4 0
unfolding count_drawn is_drawn
enough = omega arith

letters-count_drawn_example :
    (s : Bytes) × (letters fresh small_letters 3 4 0 3 ≡ some s)
    × (length s ≡ 3)
    × All (λ x. one_letter small_letters x ≡ true) s
letters-count_drawn_example = letters-count_drawn fresh small_letters 3 4 0 3 enough

sized : 0 < 3
sized = omega arith

behind : 0 % buffer_size 3 + 3 < buffer_size 3
unfolding buffer_size
behind = omega arith

at_most_256 : 36 ≤ 256
at_most_256 = omega arith

last : 35 < 36
last = omega arith

bit_mask_lem_example : 35 % (bit_mask 36 + 1) ≡ 35
bit_mask_lem_example = bit_mask_lem 36 35 at_most_256 last
