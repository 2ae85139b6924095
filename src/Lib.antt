-- ===== src/Lib.antt =====
-- A model of the st0x oracle server and the theorems that make it correct.
--
-- The server answers `/context/v1` and `/context/v4` to `/context/v7` with Rain signed context: a
-- price from the pricing service, bound to times, a market session, a token pair and an expiry, and
-- signed by the server's key. A request resolves token pairs (src/registry.rs), takes one snapshot of
-- the price cache (src/pricing_client.rs), builds and signs a context for each item (src/oracle.rs,
-- src/session.rs, src/sign.rs), perhaps serving an earlier signature again (src/reuse.rs), and checks
-- everything once more before the reply (src/lib.rs). The tokens come from a configuration
-- (src/config.rs) and from a token file in a bucket (src/token_file.rs), whose newer copies are
-- applied while the server runs (src/reload.rs, src/tokens.rs).
--
-- Base: the names and lemmas that all modules share: lists, integers, decimal texts, hash maps as
--   association lists, results.
-- Wire: the frames and quotes of the pricing service's protocol, and a record of the operations of
--   other crates that the server calls (floats, hashing); their documented facts are its laws.
-- Session: src/session.rs, `SignedSession::from_quote` and `tag_bytes32_v3`.
-- Registry: src/registry.rs, `TokenRegistry::new`, `from_config` and `resolve`.
-- Context: src/oracle.rs, the builders `build_context` to `build_context_v7`. Context.Layout has the
--   slots, Context.Words their sizes.
-- Pricing: src/pricing_client.rs, the cache of quotes with the generations that tell whether a
--   snapshot may still be used. Pricing.Events has the frames and reloads that change it, one at a
--   time, as the write lock orders them. Pricing.Subscription has the connected session, which follows
--   the list of symbols, and `run_loop`: each turn of `select!` is an event, with the outcomes of the
--   frames that it sends; the change of the watched list is an event of others. Pricing.Connect is the
--   handshake before a session, with its requests as parameters.
-- Reuse: src/reuse.rs, `ReuseCache::lookup` and `store`.
-- Signer: src/sign.rs, the cache of signatures by hash. Shared entries have identities, so that an
--   `Arc` comparison is a comparison of numbers. Signer.History has requests that begin and end their
--   waits and sign tasks that end: a task settles, and on a failure evicts, in one step and sends in a
--   later one; a wait that runs out is the end of a wait on a pending entry.
--   Signer.Preimage is about the bytes that are hashed. Signer.KeyName reads the resource name of a
--   key version, and Signer.Key makes a signer of a key.
-- Refusal: src/lib.rs, `AppError` and the refusals that are counted. The text of an error is a
--   constructor with the values that the text shows.
-- World: what the handlers share with everything else that runs. A handler is a function of this
--   state. Before each of its reads of the state it yields: a list of acts of others, the next of the
--   schedule, takes place. A theorem about a handler is for every schedule.
--   World.Passes relates the states that a run goes through, where others act only as the schedule
--   says; World.Later allows any acts, for what may happen between a reload and a request.
--   World.Trusted is a state that keeps only what the key signed, and
--   World.Ensures has the rules for the operations that leave it so; World.Produces has those for what
--   holds of a result in any state.
-- Validity and Rates: src/lib.rs, the checks of a quote, its expiry, and the rate that is signed.
-- Response: src/lib.rs, `build_response_from_quote_pair_bound`. Response.States has what its contexts
--   state.
-- Batch: src/lib.rs, `build_slots`, `revalidate_batch` and `finish`, in both modes. Slots are built in
--   request order; in an envelope the steps of the other slots are acts of the schedule. Batch.Window
--   is the window of concurrent builds by itself: which future ends next is an argument. Batch.Strict
--   is the mode that stops at the first error.
-- Config: src/config.rs, the configuration, its validation, and `from_table`; Config.Load has the
--   tables. The derived reading of a table (`try_into`) and `Address::from_str` are parameters.
-- Toml: the values of the crate `toml`, whose tables are in the order of their keys.
-- TokenFile: src/token_file.rs. TokenFile itself has the projection of the file on one chain and the
--   comparison of two; Project has `project` and `merge`, Bucket a read of the object with its access
--   token, Source the object that a configuration names, Candidate what a copy is built into, Boot the
--   retries of boot, and the other modules their proofs; TokenFile.Bearer follows the access token
--   over many calls. A set (`BTreeSet`) is a list in increasing order (Base.Ordered). What a request
--   over HTTP answers is an argument; texts that are walked are lists of code points.
-- Tokens: src/tokens.rs, the running token set.
-- Reload: src/reload.rs, `decide`, `apply` and one round of the loop, with the gauges that it
--   sets. Reload.Withdrawn is about the requests that run while a round applies a copy.
-- Query: src/lib.rs, `ContextQuery::parse`, on ASCII codes.
-- Handlers: src/lib.rs, the handlers of v1 and of v4 to v7, and in Handlers.Endpoints their routes. ABI
--   decoding is a parameter. Handlers.Routed is about what the routes send.
-- Serve: src/main.rs, the arguments of `validate` and what it checks, and where the tokens and the
--   signing key come from.
-- Status: src/lib.rs, `status`.
-- Tests: concrete quotes and requests, and the theorems at them.
--
-- Times are natural numbers of seconds or integers of milliseconds, with the division and conversion
-- of the source written out. The definitions recurse on lists, so that no fuel is needed, but for the
-- retries of boot and the window of slots: they have one round of fuel more than there are tries or
-- slots, and the theorems on them show that this is enough. The rows of `Projection` are kept as TOML
-- values, as in the source; `to_lowercase` is a parameter, since the Unicode tables are not in the
-- repository.
--
-- Not modelled: HTTP, CBOR and TOML parsing, tracing, the metrics exporter, reading the options of the
-- server, and the calls of the key management service.
pub mod Base
pub mod Wire
pub mod Session
pub mod Config
pub mod Registry
pub mod Context
pub mod Pricing
pub mod Reuse
pub mod Signer
pub mod Refusal
pub mod World
pub mod Validity
pub mod Rates
pub mod Response
pub mod Batch
pub mod Query
pub mod Handlers
pub mod Toml
pub mod TokenFile
pub mod Tokens
pub mod Reload
pub mod Serve
pub mod Status
pub mod Tests
