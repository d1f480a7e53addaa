-- ===== src/Lib.antt =====
-- Privana's Python service: the way of a deposit from the chain where it was paid to the credit
-- in the Accounting contract, and the stores behind the authentication endpoints.
--
-- How the parts work together. A client claims a deposit with `process_deposit`
-- (src/services/deposit_processor.py). The claim is checked on its chain by `verify_deposit`
-- (src/services/deposit_verifier.py) against the limits of the chain's configuration
-- (src/config/chain_config.py), and a background task then moves the funds: the sweep engine
-- (src/services/sweep_engine.py) sends gas to the deposit address, signs and sends the sweep,
-- waits for its receipt and asks the contract for the credit. Each stage is saved in a record on
-- disk, from which the engine recovers at a start and in a loop. Clients poll
-- `get_deposit_status`. The withdrawal processor (src/services/withdrawal_processor.py) has the
-- contract sign withdrawals and broadcasts them. For wallets that report no hash,
-- `discover_pending_deposits` (src/services/deposit_discovery.py) scans a chain's logs for
-- transfers that nobody has claimed. All of them reach a chain only through the gate of
-- src/services/rpc_identity.py, which serves an endpoint while it answers with the id of the
-- chain that it is configured for. Authentication (src/auth) issues access, id and refresh tokens
-- and keeps refresh tokens, nonces, authorization codes and request counts in disk caches. An
-- on-ramp purchase is bound to a user and a token by a signed intent (src/services/onramp_intent.py).
--
-- Shared modules. Prelude, Prelude/Tests and Prelude/Lists: names, Boolean tests and lists. Text
-- and Text/Hex: texts as lists of code points, bytes and hexadecimal. Text/Framing: texts in a row,
-- for samples. Dict and Table: dictionaries
-- by text, or directories of files, and by number. Effect: methods that pass the state of their
-- object and may raise;
-- Effect/Hoare: rules to reason about them.
--
-- Config: chain_config.py, the table of chains and its validation.
-- Sweep: sweep_engine.py. Sweep/Record: `SweepRecord`, with `to_dict` and
-- `from_dict` in Sweep/Record/Json. Sweep/World: the engine's state (files,
-- gas funding hashes), the answers of chains and contract, and the history of those answers.
-- Sweep/Store: the methods on records on disk (paths in Sweep/Store/Paths). Sweep/Gas and
-- Sweep/Receipt: gas prices and `_wait_for_receipt`. Sweep/Engine: `sweep_native` and
-- `sweep_erc20`. Sweep/Load and Sweep/Recovery: `load_incomplete_sweeps`, reconciliation,
-- `resume_incomplete_sweeps` and one round of `_run_recovery_loop`. Sweep/Operations: runs of
-- the engine, restarts included. Sweep/Safety: the invariant of the runs, from the rules for
-- each stage up to whole runs.
-- Deposit: deposit_verifier.py (Deposit/Verifier, proofs in Deposit/Verification) and
-- deposit_processor.py (Deposit/Processor, proofs in Deposit/Claims and Deposit/Reports).
-- Deposit/Discovery: deposit_discovery.py; the scan is in Deposit/Discovery/Scan, and proofs about
-- its order, the pass over a chunk, the whole window, its end and the verdicts in the files
-- beside.
-- Rpc: rpc_identity.py, with proofs about a pass (Rpc/Probe), runs of passes and requests
-- (Rpc/Serving) and later passes (Rpc/Readmission).
-- Auth: jwt_service.py (Auth/Jwt; the purposes of tokens, their exchange and the sequences of
-- exchanges in the files below it), token_store.py (Auth/TokenStore), code_store.py
-- (Auth/CodeStore), rate_limiter.py
-- (Auth/RateLimiter), each over the interface of the disk cache in Auth/DiskCache. Auth/Clients:
-- client_registry.py, pkce.py and the redirect URIs of siwe_config.py. Auth/Grant: `exchange_code` of
-- src/api/auth_routes.py, who is given tokens (Auth/Grant/Sound) and how often (Auth/Grant/Single).
-- Withdrawal: withdrawal_processor.py, `_resolve_and_broadcast` (proofs in Withdrawal/Search and
-- Withdrawal/Payment). Withdrawal/Gate: `_chain_nonce_state` (Withdrawal/Readiness).
-- Withdrawal/Poll: the queue (Withdrawal/Pending), the catch-up and the polls of `_run_processor`
-- (Withdrawal/Divergence, with the rules of Withdrawal/Keeps).
-- Intent: onramp_intent.py, the codec of signed intents; what is accepted is in Intent/Canonical,
-- the way from creation to decoding in Intent/RoundTrip. The key ring is a list of keys.
-- The modules named Tests hold runs and applications of the theorems at concrete inputs, such as
-- the sample chain of Sweep/Sample and the cache of Auth/Memory.
--
-- What is a parameter. The nodes, the contract and the clock of the sweep engine are functions
-- of a tick that every `await` advances (so for the withdrawals), so that each answer may be any
-- value, exception or cancellation; between two steps of a task the others run as a function on
-- the engine's state, of which is assumed what `Rely` says: they keep the engine's invariant and
-- only add to the history. `diskcache`, PyJWT with its
-- key, JSON, base64 and HMAC of the intents, urllib.parse and sha256, keccak256, the checksum of
-- addresses and the random generator are parameters too.
--
-- Numbers are natural numbers, as Python's integers are unbounded. Two loops are on fuel. That
-- of `_wait_for_receipt` polls for 120 seconds and sleeps 2 seconds after each poll, so the
-- 121 rounds that it is given are more than a clock that moves with the sleeps allows
-- (Sweep/Receipt/Waiting). The scan of deposit discovery takes a round for each chunk and is given
-- one for each block of its window, and one more (Deposit/Discovery/Rounds). The poll for a
-- resolution and the attempts of a rate-limited call
-- count down as the code does, and the polls of the withdrawal processor are any
-- number of rounds, since its loop is meant to go on.
--
-- What is left out: the locks of the engine (a lock is an `await`; what it excludes is not
-- used), the text of JSON (a file of the state directory holds an object, or
-- what `json.loads` does not read; a field of a type that it is not declared with, or a missing
-- created_at, is refused, though Python carries the one along and fills in the other), logging and the texts of
-- messages, the task of the recovery loop beyond one round, and the services without a module
-- here: the contract client, the on-ramp providers, the cryptography of tokens, and
-- the routes other than `exchange_code`. The time-limited cache of scan results is an argument: what it holds for a key.
pub mod Prelude
pub mod Text
pub mod Dict
pub mod Table
pub mod Effect
pub mod Config
pub mod Intent
pub mod Rpc
pub mod Sweep
pub mod Deposit
pub mod Withdrawal
pub mod Auth
