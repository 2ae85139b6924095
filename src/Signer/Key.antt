-- ===== src/Signer/Key.antt =====
-- src/sign.rs: the signer of a key version of the key management service, and of a private key.
use st0x_oracle_server.Base.{none, some, String, Result, map_err, codes, ok}
use st0x_oracle_server.Signer
use st0x_oracle_server.Base.Errors.{◌>>=◌}
use st0x_oracle_server.Base.Text.{Text, strip_prefix}
use st0x_oracle_server.Signer.KeyName.{KmsKeyName, KeyNameError, parse_key_name}
use st0x_oracle_server.Signer.{
  SignatureCache, signature_cache_idle_ttl, signature_cache_max_entries,
}

pub data KeyError : Type 0 where
  bad_key_name : KeyNameError → KeyError
  key_refused : (why : String) → KeyError

-- A signer is its key, of a type `K` of other crates, with an empty cache.
abbrev pub with_inner : {K : Type 0} → K → K × SignatureCache
with_inner key = (key, Signer.new signature_cache_idle_ttl signature_cache_max_entries)

-- Opening a key version at the service, and reading a private key, are calls of other crates.
module _ {K : Type 0} where
  unfoldable pub from_gcp_kms :
      (KmsKeyName → Result String K) → Text → Result KeyError (K × SignatureCache)
  from_gcp_kms connect resource_name = do
    name ← map_err bad_key_name (parse_key_name resource_name)
    key ← map_err key_refused (connect name)
    ok (with_inner key)

  -- A private key with or without `0x`.
  unfoldable pub from_private_key :
      (Text → Result String K) → Text → Result KeyError (K × SignatureCache)
  from_private_key parse private_key =
      let digits : Text = elim (strip_prefix (codes "0x") private_key) [
        | none ↦ private_key
        | some rest ↦ rest
      ] in
      do key ← map_err key_refused (parse digits); ok (with_inner key)
