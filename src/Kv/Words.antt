-- ===== src/Kv/Words.antt =====
-- Little-endian words: what is put is got back, and how many bytes it takes.
use ant_chain_trust_sdk.Prelude.{ℕ, zero, suc, ◌*◌, ◌/◌, ◌<◌, ◌≡◌, refl, ◌++◌, length, arith}
use ant_chain_trust_sdk.Kv.Codec.{Bytes, put_le, get_le}

-- The number of values of `n` bytes.
abbrev pub values : ℕ → ℕ
values zero = 1
values (suc n) = values n * 256

pub get_le-put_le : (n v : ℕ) (rest : Bytes) → v < values n → get_le n (put_le n v ++ rest) ≡ v
unfolding put_le get_le
get_le-put_le zero v rest h = omega arith
get_le-put_le (suc n) v rest h = omega (arith, get_le-put_le n (v / 256) rest (omega arith))

pub length-put_le : (n v : ℕ) → length (put_le n v) ≡ n
unfolding put_le
length-put_le zero v = refl
length-put_le (suc n) v = omega (arith, length-put_le n (v / 256))
