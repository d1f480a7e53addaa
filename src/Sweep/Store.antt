-- ===== src/Sweep/Store.antt =====
-- src/services/sweep_engine.py: the records on disk, one file for each deposit id.
pub mod Paths
use privana.Prelude.{
  ◌≡◌, refl, not, ◌||◌, Option, none, some, ◌++◌, ◌==◌, every, length, if◌then◌else◌,
}
use privana.Text.{Text, codes, lower, remove_prefix}
use privana.Text.Hex.{is_hex_digit}
use privana.Dict.{lookup, insert, remove}
use privana.Effect.{
  Exn, Outcome, ok, raise, M, pure, throw, lift, modify, value_error, ◌>>=◌, try_except, then_do,
}
use privana.Sweep.Record.{SweepRecord, is_set, post_init}
use privana.Sweep.Record.Json.{to_dict, from_dict, from_dict-to_dict, from_dict-valid}
use privana.Sweep.World.{Engine, File, object, corrupt}

unfoldable pub file_name : Text → Text
file_name key = codes "sweep_" ++ (key ++ codes ".json")

-- The part of `_record_path` that normalises an id.
unfoldable pub record_key : Text → Text
record_key id = remove_prefix (codes "0x") (lower id)

-- `_record_path`
unfoldable pub record_path : Text → Outcome Text
unfolding record_key
record_path id =
    let key = record_key id in
    if not (length key == 64) || not (every is_hex_digit key)
    then raise (value_error (codes "deposit_id_hex must be 32 bytes of hex"))
    else ok (file_name key)

-- `_save_record`: written to a temporary file that then replaces the old one
unfoldable pub save_record : SweepRecord → M Engine (Unit {0})
save_record r = do
  path ← lift (record_path r.deposit_id_hex)
  modify (λ s. record s { files = insert path (object (to_dict r)) s.files })

-- `_delete_record`
unfoldable pub delete_record : Text → M Engine (Unit {0})
delete_record id = do
  path ← lift (record_path id)
  modify (λ s. record s { files = remove path s.files })

-- `SweepRecord.from_dict(json.loads(text))`
unfoldable pub read_file : File → Outcome SweepRecord
unfolding from_dict
read_file (object d) = from_dict d
read_file corrupt = raise (value_error (codes "corrupt sweep record"))

-- A saved record is read back, and checked.
pub read_file-saved : (r : SweepRecord) → read_file (object (to_dict r)) ≡ post_init r
unfolding read_file
read_file-saved r = from_dict-to_dict r

pub read_file-valid :
    (f : File) (r : SweepRecord) (error : Option Text)
    → read_file f ≡ ok r
    → post_init (record r { error = error }) ≡ ok (record r { error = error })
unfolding read_file
read_file-valid (object d) r error h = from_dict-valid d r error h
read_file-valid corrupt r error h = cc

abbrev pub parsed : Option File → Outcome (Option SweepRecord)
parsed none = ok none
parsed (some f) = then_do (read_file f) λ r. ok (some r)

pub parsed-some :
    (o : Option File) (r : SweepRecord)
    → parsed o ≡ ok (some r)
    → (f : File) × (o ≡ some f) × (read_file f ≡ ok r)
parsed-some none r h = cc
parsed-some (some f) r h = (f, refl, by_content (read_file f) h)
  where
    by_content : (o : Outcome SweepRecord) → then_do o (λ r. ok (some r)) ≡ ok (some r) → o ≡ ok r
    by_content (raise e) k = cc
    by_content (ok q) k = cc

abbrev pub found_at : Outcome Text → Engine → Outcome (Option SweepRecord)
found_at (ok path) s = parsed (lookup path s.files)
found_at (raise e) s = ok none

-- `get_record_by_deposit_id`
unfoldable pub get_record : Text → M Engine (Option SweepRecord)
unfolding read_file record_path
get_record id s = (found_at (record_path id) s, s)

abbrev pub swallow_value_error : Exn → M Engine (Unit {0})
swallow_value_error (value_error m) = pure tt
swallow_value_error e = throw e

-- `cleanup_record`
unfoldable pub cleanup_record : Text → M Engine (Unit {0})
unfolding delete_record
cleanup_record id = try_except (delete_record id) swallow_value_error

-- `persist_error` and, on the id of its record, `_persist_resume_error`
abbrev pub flag_error : Text → Option SweepRecord → M Engine (Unit {0})
flag_error error none = pure tt
flag_error error (some r) =
    if is_set r.sweep_tx_hash then pure tt else save_record (record r { error = some error })

unfoldable pub persist_error : Text → Text → M Engine (Unit {0})
unfolding get_record save_record
persist_error id error = do r ← get_record id; flag_error error r
