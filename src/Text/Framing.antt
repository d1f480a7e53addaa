-- ===== src/Text/Framing.antt =====
-- Texts in a row, each behind its length: for the codecs of the samples.
use privana.Prelude.{ℕ, zero, suc, ◌≡◌, refl, Option, none, some, [], ◌∷◌, ◌++◌, length}
use privana.Text.{Text}

abbrev pub write_text : Text → Text → Text
write_text t rest = length t ∷ t ++ rest

unfoldable pub split : ℕ → Text → Option (Text × Text)
split zero s = some ([], s)
split (suc n) [] = none
split (suc n) (x ∷ s) = elim (split n s) [ none ↦ none | some (t, rest) ↦ some (x ∷ t, rest) ]

abbrev pub read_text : Text → Option (Text × Text)
read_text [] = none
read_text (n ∷ s) = split n s

abbrev pub and_then : {A B : Type 0} → Option (A × Text) → (A → Text → Option B) → Option B
and_then none f = none
and_then (some (a, rest)) f = f a rest

pub split-write : (t rest : Text) → split (length t) (t ++ rest) ≡ some (t, rest)
unfolding split
split-write [] rest = refl
split-write (x ∷ t) rest = rw (split-write t rest) refl
