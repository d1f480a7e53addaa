-- ===== src/Deposit/Verifier.antt =====
-- src/services/deposit_verifier.py: `verify_deposit`. The chain's answers are arguments: the receipt,
-- the latest block, the transaction and the two balances. Block numbers and amounts are natural
-- numbers; a difference that Python lets go negative is compared by moving it to the other side.
use privana.Prelude.{
  ℕ, ◌+◌, ◌-◌, ◌*◌, Bool, true, false, not, ◌&&◌, Option, none, some, List, [], ◌∷◌, ◌++◌, ltb, leb,
  ◌==◌, length, ◌≡◌, refl, if◌then◌else◌,
}
use privana.Text.{Text, codes, text_eq, lower, is_nonempty, remove_prefix}
use privana.Text.Hex.{Bytes, to_hex, digit_value}
use privana.Config.{ChainConfig, get_finality_depth}
use privana.Effect.{Outcome, ok, raise, value_error}

pub record VerifiedDeposit : Type 0 where
  pub chain_id : ℕ
  pub tx_hash : Text
  pub amount : ℕ
  pub is_native : Bool
  pub token_address : Option Text
  pub deposit_index : ℕ
  pub block_number : ℕ

-- Values that web3 hands over as text or as bytes.
pub data Raw : Type 0 where
  text : Text → Raw
  bytes : Bytes → Raw

pub record LogEntry : Type 0 where
  pub topics : List Raw
  pub log_index : ℕ
  pub value : Raw
  pub address : Raw

pub record Receipt : Type 0 where
  pub status : ℕ
  pub block_number : ℕ
  pub logs : List LogEntry

-- What the node answers in the course of one verification.
pub record Answers : Type 0 where
  pub served : Bool
  pub receipt : Outcome (Option Receipt)
  pub latest_block : Outcome ℕ
  -- the receiver and the value of the transaction
  pub transaction : Outcome (Option Raw × ℕ)
  pub balance_before : Outcome ℕ
  pub balance_after : Outcome ℕ

abbrev pub refuse : {A : Type 0} → Text → Outcome A
refuse m = raise (value_error m)

abbrev pub then_with : {A B : Type 0} → Outcome A → (A → Outcome B) → Outcome B
then_with (ok a) f = f a
then_with (raise e) f = raise e

-- A chain of fallible steps that ends well.
pub then_with-ok :
    {A B : Type 0} (m : Outcome A) (f : A → Outcome B) (b : B)
    → then_with m f ≡ ok b
    → (a : A) × (m ≡ ok a) × (f a ≡ ok b)
then_with-ok (ok a) f b h = (a, refl, h)
then_with-ok (raise e) f b h = cc

abbrev pub transfer_event_topic : Text
transfer_event_topic = codes "0xddf252ad1be2c89b69c2b068fc378daa952ba7f163c4a11628f55a4df523b3ef"

-- `s[-n:]` and `s[:n]`
unfoldable pub drop : ℕ → List ℕ → List ℕ
drop n [] = []
drop n (c ∷ s) = let rest = drop (n - 1) s in if n == 0 then c ∷ s else rest

unfoldable pub last : ℕ → List ℕ → List ℕ
unfolding drop
last n s = drop (length s - n) s

unfoldable pub first : ℕ → List ℕ → List ℕ
first n [] = []
first n (c ∷ s) = let rest = first (n - 1) s in if n == 0 then [] else c ∷ rest

unfoldable pub raw_hex : Raw → Text
unfolding to_hex
raw_hex (text t) = t
raw_hex (bytes b) = to_hex b

-- The address in the low 20 bytes of a topic.
unfoldable pub topic_address : Raw → Text
unfolding to_hex last
topic_address (text t) = codes "0x" ++ last 40 t
topic_address (bytes b) = to_hex (last 20 b)

-- `int.from_bytes(b, "big")`
unfoldable pub big_endian : ℕ → Bytes → ℕ
big_endian acc [] = acc
big_endian acc (b ∷ bs) = big_endian (acc * 256 + b) bs

abbrev pub next_digit : ℕ → Option ℕ → Option ℕ
next_digit acc none = none
next_digit acc (some d) = some (acc * 16 + d)

abbrev pub continue_with : Option ℕ → (ℕ → Option ℕ) → Option ℕ
continue_with none f = none
continue_with (some n) f = f n

-- `int(t, 16)` of digits, with or without "0x"
unfoldable pub hex_number : ℕ → Text → Option ℕ
unfolding digit_value
hex_number acc [] = some acc
hex_number acc (c ∷ s) = continue_with (next_digit acc (digit_value c)) (λ n. hex_number n s)

abbrev pub or_bad_literal : Option ℕ → Outcome ℕ
or_bad_literal none = refuse (codes "invalid literal for int() with base 16")
or_bad_literal (some n) = ok n

-- `int(data, 16)` of a text of digits, with a prefix or without: no digits, no number
unfoldable pub hex_literal : Text → Option ℕ
unfolding hex_number remove_prefix lower is_nonempty
hex_literal t =
    let digits = remove_prefix (codes "0x") (lower t) in
    if is_nonempty digits then hex_number 0 digits else none

unfoldable pub transfer_amount : Raw → Outcome ℕ
unfolding big_endian first hex_literal is_nonempty
transfer_amount (bytes b) = ok (big_endian 0 (first 32 b))
transfer_amount (text t) = if is_nonempty t then or_bad_literal (hex_literal t) else ok 0

-- The tests of the loop over the logs.
unfoldable pub topics_match : Text → List Raw → Bool
unfolding lower text_eq raw_hex topic_address
topics_match deposit_address [] = false
topics_match deposit_address (topic0 ∷ []) = false
topics_match deposit_address (topic0 ∷ from_topic ∷ []) = false
topics_match deposit_address (topic0 ∷ from_topic ∷ to_topic ∷ rest) =
    text_eq (lower (raw_hex topic0)) (lower transfer_event_topic)
    && text_eq (lower (topic_address to_topic)) (lower deposit_address)

unfoldable pub matching_transfers : Text → List LogEntry → List LogEntry
unfolding topics_match
matching_transfers a [] = []
matching_transfers a (e ∷ es) =
    let rest = matching_transfers a es in if topics_match a e.topics then e ∷ rest else rest

unfoldable pub first_at_index : ℕ → List LogEntry → Outcome LogEntry
first_at_index i [] = refuse (codes "No Transfer event with logIndex")
first_at_index i (e ∷ es) =
    let rest = first_at_index i es in if e.log_index == i then ok e else rest

-- One matching transfer is taken whatever its index; of several the claimed index chooses.
unfoldable pub choose_transfer : ℕ → LogEntry → List LogEntry → Outcome LogEntry
unfolding first_at_index
choose_transfer i e [] = ok e
choose_transfer i e (d ∷ es) = first_at_index i (e ∷ d ∷ es)

-- The claim that is verified.
pub record Claim : Type 0 where
  pub chain_id : ℕ
  pub tx_hash : Text
  pub deposit_address : Text
  pub expected_amount : ℕ
  pub log_index : ℕ

abbrev pub erc20_deposit : Claim → LogEntry → ℕ → VerifiedDeposit
erc20_deposit c e block = record {
  chain_id = c.chain_id;
  tx_hash = c.tx_hash;
  amount = c.expected_amount;
  is_native = false;
  token_address = some (raw_hex e.address);
  deposit_index = e.log_index;
  block_number = block;
}

abbrev pub native_deposit : Claim → ℕ → VerifiedDeposit
native_deposit c block = record {
  chain_id = c.chain_id;
  tx_hash = c.tx_hash;
  amount = c.expected_amount;
  is_native = true;
  token_address = none;
  deposit_index = 0;
  block_number = block;
}

-- 3a, from the transfer that is chosen; `VerifiedDeposit` refuses an empty token address.
unfoldable pub accept_transfer : Claim → ℕ → LogEntry → Outcome VerifiedDeposit
unfolding transfer_amount raw_hex is_nonempty
accept_transfer c block e = then_with (transfer_amount e.value) λ on_chain.
    if ltb on_chain c.expected_amount
    then refuse (codes "On-chain Transfer amount is less than claimed amount")
    else if not (is_nonempty (raw_hex e.address))
    then refuse (codes "ERC20 deposit requires token_address")
    else ok (erc20_deposit c e block)

abbrev pub receives : Claim → Option Raw → Bool
receives c none = false
receives c (some to) =
    is_nonempty (raw_hex to) && text_eq (lower (raw_hex to)) (lower c.deposit_address)

-- The fallback: the balance of the deposit address before and after the block.
unfoldable pub by_balances : Claim → ℕ → Answers → Outcome VerifiedDeposit
by_balances c block n = then_with n.balance_before λ before. then_with n.balance_after λ after.
    if leb (before + c.expected_amount) after
    then ok (native_deposit c block)
    else refuse (codes "No deposit found")

-- The fast path: the transaction itself pays the deposit address.
unfoldable pub by_transaction : Claim → ℕ → Answers → Option Raw × ℕ → Outcome VerifiedDeposit
unfolding by_balances raw_hex is_nonempty lower text_eq
by_transaction c block n (to, value) =
    if receives c to && ltb 0 value
    then (if ltb value c.expected_amount
        then refuse (codes "On-chain tx value is less than claimed amount")
        else ok (native_deposit c block))
    else by_balances c block n

-- 3b: a native deposit.
unfoldable pub verify_native : Claim → ℕ → Answers → Outcome VerifiedDeposit
unfolding by_transaction
verify_native c block n =
    if c.log_index == 0
    then then_with n.transaction (by_transaction c block n)
    else refuse (codes "No deposit found")

abbrev pub by_transfers : Claim → ℕ → Answers → List LogEntry → Outcome VerifiedDeposit
by_transfers c block n [] = verify_native c block n
by_transfers c block n (e ∷ es) =
    then_with (choose_transfer c.log_index e es) (accept_transfer c block)

-- 2 and 3: the finality of the receipt's block, then the transfers.
abbrev pub by_latest : List ChainConfig → Claim → Answers → Receipt → ℕ → Outcome VerifiedDeposit
by_latest configs c n r latest =
    if ltb latest (r.block_number + get_finality_depth configs c.chain_id)
    then refuse (codes "Insufficient finality")
    else by_transfers c r.block_number n (matching_transfers c.deposit_address r.logs)

abbrev pub by_receipt :
    List ChainConfig → Claim → Answers → Option Receipt → Outcome VerifiedDeposit
by_receipt configs c n none = refuse (codes "Transaction not found")
by_receipt configs c n (some r) =
    if not (r.status == 1)
    then refuse (codes "Transaction reverted (status=0)")
    else then_with n.latest_block (by_latest configs c n r)

-- `DepositVerifier.verify_deposit`
unfoldable pub verify_deposit : List ChainConfig → Claim → Answers → Outcome VerifiedDeposit
unfolding matching_transfers choose_transfer accept_transfer verify_native get_finality_depth
verify_deposit configs c n =
    if n.served
    then then_with n.receipt (by_receipt configs c n)
    else refuse (codes "No verified RPC endpoint for chain")
