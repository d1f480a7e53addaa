-- ===== src/Sweep/Safety/Invariant.antt =====
-- The invariant that ties the records on disk and the credits to the history, and the judgment
-- `Keeps es m es'`: `m` keeps it, where the history holds the events `es` before and `es'` after.
use privana.Prelude.{ℕ, ◌≡◌, refl, inl, true, Option, some, List, [], ◌∷◌, ◌++◌, Has, Has-append}
use privana.Text.{Text}
use privana.Text.Hex.{Bytes}
use privana.Dict.{lookup}
use privana.Sweep.Record.{SweepRecord, is_swept}
use privana.Effect.{ok}
use privana.Sweep.Store.{read_file}
use privana.Sweep.World.{
  Engine, File, Env, Event, signed, sent, mined, credit_asked, credit_done, processed,
}

-- A sweep of `amount` for `beneficiary` was signed, sent and mined with status 1.
pub record Backed (beneficiary : Text) (amount : ℕ) (log : List Event) : Type 0 where
  pub chain : ℕ
  pub token : Option Text
  pub tx : Bytes
  pub hash : Text
  pub was_signed : Has (signed beneficiary chain token amount tx) log
  pub was_sent : Has (sent chain tx hash) log
  pub was_mined : Has (mined chain hash 1) log

-- The hash on a record is that of a transaction signed for the record's deposit.
pub record HashBacked (r : SweepRecord) (hash : Text) (log : List Event) : Type 0 where
  pub token : Option Text
  pub tx : Bytes
  pub was_signed : Has (signed r.beneficiary r.chain_id token r.amount tx) log
  pub was_sent : Has (sent r.chain_id tx hash) log

pub record RecordBacked (r : SweepRecord) (log : List Event) : Type 0 where
  pub hash_backed : (hash : Text) → r.sweep_tx_hash ≡ some hash → HashBacked r hash log
  pub swept_backed : is_swept r.state ≡ true → Backed r.beneficiary r.amount log

-- Every request of a credit came after the sweep that backs it.
abbrev pub CreditsBacked : List Event → Type 0
CreditsBacked [] = Unit
CreditsBacked (credit_asked b t a i ∷ log) = Backed b a log × CreditsBacked log
CreditsBacked (e ∷ log) = CreditsBacked log

pub record IsSafe (s : Engine) : Type 0 where
  pub records :
      (path : Text) (f : File) (r : SweepRecord)
      → lookup path s.files ≡ some f
      → read_file f ≡ ok r
      → RecordBacked r s.log
  pub credits : CreditsBacked s.log

-- Events that ask for no credit.
abbrev pub IsQuiet : Event → Type 0
IsQuiet (credit_asked b t a i) = ⊥
IsQuiet e = Unit

abbrev pub AllQuiet : List Event → Type 0
AllQuiet [] = Unit
AllQuiet (e ∷ es) = IsQuiet e × AllQuiet es

-- The history holds each of the events.
abbrev pub HasAll : List Event → List Event → Type 0
HasAll [] log = Unit
HasAll (e ∷ es) log = Has e log × HasAll es log

pub Backed-append :
    {b : Text} {a : ℕ} (pre log : List Event) → Backed b a log → Backed b a (pre ++ log)
Backed-append pre log h = record {
  chain = h.chain;
  token = h.token;
  tx = h.tx;
  hash = h.hash;
  was_signed = Has-append _ pre log h.was_signed;
  was_sent = Has-append _ pre log h.was_sent;
  was_mined = Has-append _ pre log h.was_mined;
}

pub RecordBacked-append :
    (r : SweepRecord) (pre log : List Event) → RecordBacked r log → RecordBacked r (pre ++ log)
RecordBacked-append r pre log h = record {
  hash_backed = λ hash e.
      let b = h.hash_backed hash e in
      record {
        token = b.token;
        tx = b.tx;
        was_signed = Has-append _ pre log b.was_signed;
        was_sent = Has-append _ pre log b.was_sent;
      };
  swept_backed = λ e. Backed-append pre log (h.swept_backed e);
}

pub HasAll-append : (es pre log : List Event) → HasAll es log → HasAll es (pre ++ log)
HasAll-append [] pre log h = tt
HasAll-append (e ∷ es) pre log h = (Has-append e pre log h.0, HasAll-append es pre log h.1)

pub HasAll-join : (es fs log : List Event) → HasAll es log → HasAll fs log → HasAll (es ++ fs) log
HasAll-join [] fs log h k = k
HasAll-join (e ∷ es) fs log h k = (h.0, HasAll-join es fs log h.1 k)

pub HasAll-weaken :
    (es : List Event) (e : Event) (log : List Event) → HasAll es log → HasAll es (e ∷ log)
HasAll-weaken es e log h = HasAll-append es (e ∷ []) log h

pub HasAll-prefix : (es log : List Event) → HasAll es (es ++ log)
HasAll-prefix [] log = tt
HasAll-prefix (e ∷ es) log = (inl refl, HasAll-weaken es e (es ++ log) (HasAll-prefix es log))

pub CreditsBacked-append :
    (es log : List Event) → AllQuiet es → CreditsBacked log → CreditsBacked (es ++ log)
CreditsBacked-append [] log q h = h
CreditsBacked-append (signed b c t a x ∷ es) log q h = CreditsBacked-append es log q.1 h
CreditsBacked-append (sent c x k ∷ es) log q h = CreditsBacked-append es log q.1 h
CreditsBacked-append (mined c k n ∷ es) log q h = CreditsBacked-append es log q.1 h
CreditsBacked-append (credit_done b t a i ∷ es) log q h = CreditsBacked-append es log q.1 h
CreditsBacked-append (processed i ∷ es) log q h = CreditsBacked-append es log q.1 h
CreditsBacked-append (credit_asked b t a i ∷ es) log q h = absurd q.0

-- What is relied on of the tasks that run while this one waits: they are tasks of the same engine,
-- so they keep the invariant too, and the history only grows.
pub record Rely (env : Env) : Type 0 where
  pub safe : (t : ℕ) (s : Engine) → IsSafe s → IsSafe (env.others t s)
  pub grows : (t : ℕ) (s : Engine) → (pre : List Event) × ((env.others t s).log ≡ pre ++ s.log)
