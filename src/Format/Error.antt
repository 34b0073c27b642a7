-- ===== src/Format/Error.antt =====
-- The `Result<T, String>` of crates/compactor/src/format: one constructor for each message.
-- `fuel_exhausted` is no message of the source: a loop of the model had too little fuel.
use compactor.Prelude.{Option, none, some, ◌≡◌, refl, ◌⊎◌, inl, inr}

pub data Error : Type 0 where
  short_internal_key : Error
  block_too_small restarts_out_of_bounds : Error
  truncated_shared truncated_unshared truncated_value_length : Error
  shared_exceeds_last_key truncated_key_delta truncated_value : Error
  wrong_block_size checksum_mismatch : Error
  unknown_compression unsupported_compression decompress_failed truncated_size_prefix : Error
  footer_too_short bad_magic unsupported_version unsupported_checksum : Error
  bad_extended_magic footer_checksum_mismatch future_feature : Error
  bad_metaindex_handle bad_index_handle : Error
  truncated_index_shared truncated_index_unshared index_shared_exceeds_last_key : Error
  truncated_index_key_delta truncated_index_offset truncated_index_size : Error
  no_previous_handle truncated_size_delta : Error
  file_too_short read_failed block_out_of_bounds missing_index_handle shard_panicked : Error
  usage missing_list unreadable_list cannot_open : Error
  fuel_exhausted : Error

pub data Result {ℓ} (A : Type ℓ) : Type ℓ where
  ok : A → Result A
  err : Error → Result A

-- `Option::ok_or`.
abbrev pub ok_or {ℓ} : {A : Type ℓ} → Option A → Error → Result A
ok_or none e = err e
ok_or (some a) e = ok a

-- The chain of `?` on a `Result`.
infixl 5 ◌>>=◌
abbrev pub ◌>>=◌ {ℓ κ} : {A : Type ℓ} {B : Type κ} → Result A → (A → Result B) → Result B
ok a >>= f = f a
err e >>= f = err e

pub Result-cases {ℓ} :
    {A : Type ℓ} (r : Result A) → ((a : A) × (r ≡ ok a)) ⊎ ((x : Error) × (r ≡ err x))
Result-cases (ok a) = inl (a, refl)
Result-cases (err x) = inr (x, refl)
