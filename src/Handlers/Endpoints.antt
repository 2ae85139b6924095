-- ===== src/Handlers/Endpoints.antt =====
-- src/lib.rs: the routes `/context/v1` and `/context/v4` to `/context/v7`: the query, the handler,
-- and the outcome that is counted.
use st0x_oracle_server.Query
use st0x_oracle_server.World.{M}
use st0x_oracle_server.Handlers.{Abi, post_signed_context_v1_inner, post_signed_context_pair_bound}
use st0x_oracle_server.Base.{String, ℕ, Option}
use st0x_oracle_server.Wire.{Word, External, Bytes}
use st0x_oracle_server.Batch.{ContextResponse, record_request_outcome}
use st0x_oracle_server.Signer.{Attempt}
use st0x_oracle_server.Response.{v4, v5, v6, v7, PairSchema}

abbrev pub counted : String → M ContextResponse → M ContextResponse
counted endpoint go w = let (reply, v) = go w in (reply, record_request_outcome endpoint reply v)

module _ (x : External) (abi : Abi) (sign : Word → ℕ → Attempt) (chain_id : ℕ) where
  unfoldable pub post_signed_context_v1 : Option Bytes → Bytes → M ContextResponse
  post_signed_context_v1 query body =
      counted "v1" (post_signed_context_v1_inner x abi sign chain_id (Query.parse query) body)

  abbrev pair_bound : PairSchema → Option Bytes → Bytes → M ContextResponse
  pair_bound schema query body =
      post_signed_context_pair_bound x abi sign chain_id schema (Query.parse query) body

  unfoldable pub post_signed_context_v4 : Option Bytes → Bytes → M ContextResponse
  post_signed_context_v4 query body = counted "v4" (pair_bound v4 query body)

  unfoldable pub post_signed_context_v5 : Option Bytes → Bytes → M ContextResponse
  post_signed_context_v5 query body = counted "v5" (pair_bound v5 query body)

  unfoldable pub post_signed_context_v6 : Option Bytes → Bytes → M ContextResponse
  post_signed_context_v6 query body = counted "v6" (pair_bound v6 query body)

  unfoldable pub post_signed_context_v7 : Option Bytes → Bytes → M ContextResponse
  post_signed_context_v7 query body = counted "v7" (pair_bound v7 query body)
