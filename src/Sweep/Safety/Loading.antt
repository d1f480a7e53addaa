-- ===== src/Sweep/Safety/Loading.antt =====
-- What `load_incomplete_sweeps` returns is backed by the history, and the files that it moves
-- keep the invariant.
use privana.Prelude.{
  ◌≡◌, refl, ap, ◌∙◌, inl, inr, Bool-cases, Option, none, some, List, [], ◌∷◌, ◌++◌, arith,
  Option-cases,
}
use privana.Text.{Text, text_eq}
use privana.Dict.{lookup, remove, lookup-insert-some, lookup-remove-some}
use privana.Effect.{Outcome, ok, raise}
use privana.Effect.Hoare.{Post, Triple, Triple-bind, Triple-pure}
use privana.Sweep.Record.{SweepRecord, is_set}
use privana.Sweep.World.{Engine, Event, File}
use privana.Sweep.Store.{record_path, read_file}
use privana.Sweep.Load.{
  place, load_read, load_found, load_file, load_files, load_incomplete_sweeps, remember_gas, rename,
  corrupt_name, sort, sweep_files,
}
use privana.Sweep.Safety.Invariant.{IsSafe, RecordBacked}

abbrev pub AllBacked : List SweepRecord → List Event → Type 0
AllBacked [] log = Unit
AllBacked (r ∷ rs) log = RecordBacked r log × AllBacked rs log

AllBacked-append :
    (rs qs : List SweepRecord) (log : List Event)
    → AllBacked rs log
    → AllBacked qs log
    → AllBacked (rs ++ qs) log
AllBacked-append [] qs log h k = k
AllBacked-append (r ∷ rs) qs log h k = (h.0, AllBacked-append rs qs log h.1 k)

-- The state after a step of the loader: safe, with the same history, and what it loaded is backed.
abbrev Loads : Engine → List SweepRecord × Engine → Type 0
Loads s p = IsSafe p.1 × (p.1.log ≡ s.log) × AllBacked p.0 s.log

module _ (s : Engine) (safe : IsSafe s) where
  rename-IsSafe :
      (path target : Text) (f : File)
      → ((r : SweepRecord) → read_file f ≡ ok r → RecordBacked r s.log)
      → IsSafe (rename path target f s)
  rename-IsSafe path target f backed = record {
    records = λ p g x e read. elim (lookup-insert-some target p f g (remove path s.files) e) [
      | inl same ↦ backed x (ap read_file same ∙ read)
      | inr old ↦ safe.records p g x (lookup-remove-some path p g s.files old) read
    ];
    credits = safe.credits;
  }

  remove-IsSafe : (path : Text) → IsSafe (record s { files = remove path s.files })
  remove-IsSafe path = record {
    records = λ p g x e read. safe.records p g x (lookup-remove-some path p g s.files e) read;
    credits = safe.credits;
  }

remember_gas-IsSafe :
    (r : SweepRecord) (o : Option Text) (s : Engine) → IsSafe s → IsSafe (remember_gas r o s)
remember_gas-IsSafe r none s h = h
remember_gas-IsSafe r (some t) s h = elim (Bool-cases (is_set (some t))) [
  | inl e ↦ rw e (record { records = h.records; credits = h.credits })
  | inr e ↦ rw e h
]

remember_gas-log :
    (r : SweepRecord) (o : Option Text) (s : Engine) → (remember_gas r o s).log ≡ s.log
remember_gas-log r none s = refl
remember_gas-log r (some t) s = ground arith

module _ (s : Engine) (safe : IsSafe s) (path : Text) (f : File)
    (backed : (r : SweepRecord) → read_file f ≡ ok r → RecordBacked r s.log) where
  place-Loads :
      (r : SweepRecord) (o : Outcome Text) → RecordBacked r s.log → Loads s (place path f r o s)
  place-Loads r (raise e) b = (rename-IsSafe s safe path (corrupt_name path) f backed, refl, tt)
  place-Loads r (ok expected) b = elim (Bool-cases (text_eq path expected)) [
    | inl e ↦ rw e (remember_gas-IsSafe r _ s safe, remember_gas-log r _ s, (b, tt))
    | inr e ↦ elim (Option-cases (lookup expected s.files)) [
      | inl absent ↦
          rw (e, absent)
            (
              remember_gas-IsSafe r _ _ (rename-IsSafe s safe path expected f backed),
              remember_gas-log r _ _,
              (b, tt),
            )
      | inr (kept, present) ↦ rw (e, present) (remove-IsSafe s safe path, refl, tt)
    ]
  ]

  load_read-Loads :
      (o : Outcome SweepRecord)
      → read_file f ≡ o
      → Post
          (λ rs s'. Loads s (rs, s'))
          (λ e s'. IsSafe s')
          (load_read path f o s).0
          (load_read path f o s).1
  load_read-Loads (raise e) read =
      (rename-IsSafe s safe path (corrupt_name path) f backed, refl, tt)
  load_read-Loads (ok r) read = place-Loads r (record_path r.deposit_id_hex) (backed r read)

module _ (s : Engine) (safe : IsSafe s) (path : Text) where
  load_found-Loads :
      (f : Option File)
      → lookup path s.files ≡ f
      → Post
          (λ rs s'. Loads s (rs, s'))
          (λ e s'. IsSafe s')
          (load_found path f s).0
          (load_found path f s).1
  load_found-Loads none e = safe
  load_found-Loads (some f) e =
      load_read-Loads s safe path f (λ r read. safe.records path f r e read) (read_file f) refl

-- The state with the history as it was when the loading began.
abbrev pub SafeAt : List Event → Engine → Type 0
SafeAt log s = IsSafe s × (s.log ≡ log)

module _ (log : List Event) where
  abbrev Loaded : List SweepRecord → Engine → Type 0
  Loaded rs s = SafeAt log s × AllBacked rs log

  load_file-Loaded : (path : Text) → Triple (SafeAt log) (load_file path) Loaded (λ e. IsSafe)
  unfolding load_file
  load_file-Loaded path = record {
    at = λ s h.
        go s h (load_found path (lookup path s.files) s).0 _ (load_found-Loads s h.0 path _ refl);
  }
    where
      go :
          (s : Engine)
          → SafeAt log s
          → (r : Outcome (List SweepRecord)) (s' : Engine)
          → Post (λ rs s'. Loads s (rs, s')) (λ e s'. IsSafe s') r s'
          → Post Loaded (λ e. IsSafe) r s'
      go s h (ok rs) s' k = ((k.0, k.1 ∙ h.1), rw (← h.1) k.2)
      go s h (raise e) s' k = k

  load_files-Loaded :
      (paths : List Text) → Triple (SafeAt log) (load_files paths) Loaded (λ e. IsSafe)
  unfolding load_files
  load_files-Loaded [] = Triple-pure [] (λ s h. (h, tt))
  load_files-Loaded (path ∷ paths) = Triple-bind _ _ (load_file-Loaded path) λ rs. record {
    at = λ s h.
        (Triple-bind _ _ (load_files-Loaded paths) (λ more.
            Triple-pure (rs ++ more) (λ s' k. (k.0, AllBacked-append rs more log h.1 k.1)))).at
          s h.0;
  }

-- The loaded records are backed by the history, which the loading leaves as it is.
pub load_incomplete_sweeps-Loaded :
    (log : List Event)
    → Triple
        (SafeAt log)
        load_incomplete_sweeps
        (λ rs s. SafeAt log s × AllBacked rs log)
        (λ e. IsSafe)
unfolding load_incomplete_sweeps
load_incomplete_sweeps-Loaded log = record {
  at = λ s h. (load_files-Loaded log (sort (sweep_files s.files))).at s h;
}
