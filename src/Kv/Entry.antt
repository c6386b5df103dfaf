-- ===== src/Kv/Entry.antt =====
-- The record that `actrust_kv_set` makes: it is valid, it holds its key, and it gives its value.
use ant_chain_trust_sdk.Prelude.{
  ℕ, ◌-◌, ◌^◌, ◌<◌, ◌≤◌, ◌≡◌, refl, sym, ap, ◌∙◌, true, [], ◌∷◌, length, take, replicate, ◌==◌,
  ==_iff, arith, length-append, length-replicate, take-append, append-nil,
}
use ant_chain_trust_sdk.Kv.Codec.{Bytes, Config, max_key, record_crc, record_head}
use ant_chain_trust_sdk.Kv.Recover.{record_is_valid}
use ant_chain_trust_sdk.Kv.Store.{make_record, padded, same_bytes, has_key}
use ant_chain_trust_sdk.Kv.RoundTrip.{RecordFits}
use ant_chain_trust_sdk.Kv.Valid.{crc32_of-fits}
use ant_chain_trust_sdk.Kv.Lookup.{holds}

same_bytes_refl : (s : Bytes) → same_bytes s s ≡ true
unfolding same_bytes
same_bytes_refl [] = refl
same_bytes_refl (b ∷ s) = let e : (b == b) ≡ true = (==_iff b b).1 refl in rw e (same_bytes_refl s)

length-padded : (size : ℕ) (s : Bytes) → length s ≤ size → length (padded size s) ≡ size
length-padded size s h = omega (
  arith,
  length-append s (replicate (size - length s) 0),
  length-replicate {A = ℕ} (size - length s) 0,
)

pub take-whole : (s : Bytes) → take (length s) s ≡ s
take-whole s = ap (take (length s)) (sym (append-nil s)) ∙ take-append s []

module _ (cfg : Config) (key value : Bytes) (some_key : 0 < length key)
    (short_key : length key ≤ max_key) (short_value : length value ≤ cfg.max_value)
    (small : cfg.max_value < 2 ^ 32) where
  pub make_record-fits : RecordFits cfg (make_record cfg key value)
  unfolding make_record record_crc
  make_record-fits = record {
    used = omega arith;
    key_len = omega arith;
    reserved = omega arith;
    crc32 = crc32_of-fits _;
    value_len = omega arith;
    key = length-padded max_key key short_key;
    value = length-padded cfg.max_value value short_value;
  }

  pub make_record-valid : record_is_valid cfg (make_record cfg key value) ≡ true
  unfolding record_is_valid make_record record_crc record_head
  make_record-valid = grind arith

  pub make_record-holds : holds key (make_record cfg key value) ≡ true
  unfolding make_record has_key
  make_record-holds =
      let e : (length key == length key) ≡ true = (==_iff _ _).1 refl in
      rw (e, take-append key (replicate (max_key - length key) 0)) (same_bytes_refl key)

  pub make_record-value :
      take (make_record cfg key value).value_len (make_record cfg key value).value ≡ value
  unfolding make_record
  make_record-value = take-append value (replicate (cfg.max_value - length value) 0)
