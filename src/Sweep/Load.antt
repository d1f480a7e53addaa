-- ===== src/Sweep/Load.antt =====
-- src/services/sweep_engine.py: `load_incomplete_sweeps`, with the migration of files that older code
-- keyed by address. The listing is taken once, before any file is renamed.
use privana.Prelude.{
  ℕ, zero, suc, ◌-◌, Bool, true, false, ◌&&◌, ◌||◌, Option, none, some, List, [], ◌∷◌, ◌++◌, ltb,
  ◌==◌, length, if◌then◌else◌,
}
use privana.Text.{Text, codes, text_eq, starts_with, lower}
use privana.Dict.{Dict, lookup, insert, remove}
use privana.Effect.{Outcome, ok, raise, M, pure, ◌>>=◌, os_error}
use privana.Sweep.Record.{SweepRecord, is_set}
use privana.Sweep.World.{Engine, File}
use privana.Sweep.Store.{record_path, read_file}
use privana.Sweep.Engine.{add_gas_hash}

-- `a <= b` on texts
unfoldable pub text_leb : Text → Text → Bool
text_leb [] t = true
text_leb (x ∷ s) [] = false
text_leb (x ∷ s) (y ∷ t) = ltb x y || x == y && text_leb s t

unfoldable pub insert_sorted : Text → List Text → List Text
unfolding text_leb
insert_sorted x [] = x ∷ []
insert_sorted x (y ∷ ys) = if text_leb x y then x ∷ y ∷ ys else y ∷ insert_sorted x ys

unfoldable pub sort : List Text → List Text
unfolding insert_sorted
sort [] = []
sort (x ∷ xs) = insert_sorted x (sort xs)

abbrev pub take : ℕ → Text → Text
take n [] = []
take n (c ∷ s) = elim n [ zero ↦ [] | suc m ↦ c ∷ take m s ]

-- The text behind its first `n` characters.
abbrev pub drop : ℕ → Text → Text
drop n [] = []
drop n (c ∷ s) = elim n [ zero ↦ c ∷ s | suc m ↦ drop m s ]

-- The pattern "sweep_*.json".
unfoldable pub is_sweep_file : Text → Bool
unfolding starts_with
is_sweep_file name =
    starts_with (codes "sweep_") name && text_eq (drop (length name - 5) name) (codes ".json")

unfoldable pub sweep_files : Dict File → List Text
unfolding is_sweep_file
sweep_files [] = []
sweep_files ((name, f) ∷ d) =
    let rest = sweep_files d in if is_sweep_file name then name ∷ rest else rest

-- `path.with_suffix(".corrupt")`
unfoldable pub corrupt_name : Text → Text
corrupt_name name = take (length name - 5) name ++ codes ".corrupt"

-- `path.rename(target)`
abbrev pub rename : Text → Text → File → Engine → Engine
rename path target f s = record s { files = insert target f (remove path s.files) }

abbrev pub remember_gas : SweepRecord → Option Text → Engine → Engine
remember_gas r none s = s
remember_gas r (some h) s = if is_set (some h) then add_gas_hash (lower h) s else s

-- A file that holds a record and belongs at `expected`.
abbrev pub place : Text → File → SweepRecord → Outcome Text → Engine → List SweepRecord × Engine
place path f r (raise e) s = ([], rename path (corrupt_name path) f s)
place path f r (ok expected) s =
    if text_eq path expected
    then (r ∷ [], remember_gas r r.gas_funding_tx_hash s)
    else elim (lookup expected s.files) [
      | some kept ↦ ([], record s { files = remove path s.files })
      | none ↦ (r ∷ [], remember_gas r r.gas_funding_tx_hash (rename path expected f s))
    ]

-- What has been read of a file.
abbrev pub load_read :
    Text → File → Outcome SweepRecord → Engine → Outcome (List SweepRecord) × Engine
load_read path f (raise e) s = (ok [], rename path (corrupt_name path) f s)
load_read path f (ok r) s = let p = place path f r (record_path r.deposit_id_hex) s in (ok p.0, p.1)

-- One round of the loop: the records that it loads.
abbrev pub load_found : Text → Option File → Engine → Outcome (List SweepRecord) × Engine
load_found path none s = (raise (os_error (codes "No such file")), s)
load_found path (some f) s = load_read path f (read_file f) s

unfoldable pub load_file : Text → M Engine (List SweepRecord)
unfolding corrupt_name read_file
load_file path s = load_found path (lookup path s.files) s

unfoldable pub load_files : List Text → M Engine (List SweepRecord)
unfolding load_file
load_files [] = pure []
load_files (path ∷ paths) = do rs ← load_file path; more ← load_files paths; pure (rs ++ more)

unfoldable pub load_incomplete_sweeps : M Engine (List SweepRecord)
unfolding load_files sort sweep_files
load_incomplete_sweeps s = load_files (sort (sweep_files s.files)) s
