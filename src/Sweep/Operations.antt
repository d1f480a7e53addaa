-- ===== src/Sweep/Operations.antt =====
-- The operations of `SweepEngine` that the service calls, as one type, and runs of them. A run
-- goes on after an operation raises or is cancelled; a restart loses what is in memory.
use privana.Prelude.{List, [], ◌∷◌}
use privana.Text.{Text}
use privana.Config.{ChainConfig}
use privana.Effect.{M, pure, modify, ◌>>=◌, ◌>>◌}
use privana.Sweep.Record.{SweepArgs}
use privana.Sweep.World.{Engine, Env}
use privana.Sweep.Store.{cleanup_record, persist_error}
use privana.Sweep.Engine.{sweep_native, sweep_erc20}
use privana.Sweep.Recovery.{resume_incomplete_sweeps, recovery_pass}

pub data Operation : Type 0 where
  native : SweepArgs → Operation
  erc20 : SweepArgs → Text → Operation
  -- the process dies and starts again, and resumes what it finds on disk
  restart : Operation
  recover : Operation
  cleanup : Text → Operation
  error : Text → Text → Operation

abbrev pub forget_memory : Engine → Engine
forget_memory s = record s { gas_funding_tx_hashes = [] }

module _ (env : Env) (configs : List ChainConfig) where
  unfoldable pub perform : Operation → M Engine (Unit {0})
  unfolding sweep_native sweep_erc20 resume_incomplete_sweeps recovery_pass cleanup_record
      persist_error
  perform (native a) = sweep_native env configs a
  perform (erc20 a token) = sweep_erc20 env configs a token
  perform restart = modify forget_memory >> (resume_incomplete_sweeps env configs >>= λ _. pure tt)
  perform recover = recovery_pass env configs
  perform (cleanup id) = cleanup_record id
  perform (error id message) = persist_error id message

  unfoldable pub run : List Operation → Engine → Engine
  unfolding perform
  run [] s = s
  run (o ∷ os) s = run os (perform o s).1

-- An engine with an empty state directory and no history.
abbrev pub fresh : Engine
fresh = record { files = []; gas_funding_tx_hashes = []; tick = 0; log = [] }
