-- ===== src/Sweep/Store/Paths.antt =====
-- src/services/sweep_engine.py: the records of different deposits stand in different files.
use privana.Prelude.{
  ℕ, ◌/◌, ◌%◌, ◌<◌, ◌≡◌, refl, sym, ap, ◌∙◌, some, [], ◌∷◌, ◌++◌, arith, length, Bool-cases, inl,
  inr, if◌then◌else◌,
}
use privana.Text.{
  Text, codes, text_eq, text_eq_iff, text_eq_refl, lower, lower_char, remove_prefix, strip_prefix,
}
use privana.Text.Hex.{
  Bytes, hex, to_hex, hex_digit, from_hex, from_hex-hex, every-hex, length-hex, AllBytes,
}
use privana.Dict.{lookup-insert}
use privana.Effect.{ok, then_do, ◌>>=◌}
use privana.Sweep.Record.{SweepRecord, post_init}
use privana.Sweep.World.{Engine}
use privana.Sweep.Store.{
  file_name, record_key, record_path, save_record, get_record, read_file-saved,
}

lower-hex_digit : (n : ℕ) → n < 16 → lower_char (hex_digit n) ≡ hex_digit n
unfolding lower_char hex_digit
lower-hex_digit n h = ground arith

lower-hex : (bs : Bytes) → AllBytes bs → lower (hex bs) ≡ hex bs
unfolding lower hex
lower-hex [] h = refl
lower-hex (b ∷ bs) h =
    simp
      (
        lower-hex_digit (b / 16) (omega arith),
        lower-hex_digit (b % 16) (omega arith),
        lower-hex bs h.1,
      )
      refl

-- A deposit id of 32 bytes has a file.
record_path-to_hex :
    (id : Bytes) → AllBytes id → length id ≡ 32 → record_path (to_hex id) ≡ ok (file_name (hex id))
unfolding record_path record_key to_hex remove_prefix strip_prefix lower lower_char
record_path-to_hex id all long =
    let size : length (hex id) ≡ 64 = omega (arith, length-hex id, long) in
    rw (lower-hex id all, size, every-hex id all) refl

tail_same : (x y : ℕ) (xs ys : Text) → x ∷ xs ≡ y ∷ ys → xs ≡ ys
tail_same x y xs ys h = cc

drop_prefix : (p xs ys : Text) → p ++ xs ≡ p ++ ys → xs ≡ ys
drop_prefix [] xs ys h = h
drop_prefix (c ∷ p) xs ys h = drop_prefix p xs ys (tail_same c c (p ++ xs) (p ++ ys) h)

some_same : (a b : Bytes) → some a ≡ some b → a ≡ b
some_same a b h = cc

append_cancel : (xs ys s : Text) → length xs ≡ length ys → xs ++ s ≡ ys ++ s → xs ≡ ys
append_cancel [] [] s l h = refl
append_cancel [] (y ∷ ys) s l h = ground (arith, l)
append_cancel (x ∷ xs) [] s l h = ground (arith, l)
append_cancel (x ∷ xs) (y ∷ ys) s l h =
    let rest : xs ≡ ys =
      append_cancel xs ys s (omega (arith, l)) (tail_same x y (xs ++ s) (ys ++ s) h) in
    cc (rest, h)

file_name-injective : (a b : Text) → length a ≡ length b → file_name a ≡ file_name b → a ≡ b
unfolding file_name
file_name-injective a b l h =
    append_cancel a b (codes ".json") l (drop_prefix (codes "sweep_") _ _ h)

hex-injective : (a b : Bytes) → AllBytes a → AllBytes b → hex a ≡ hex b → a ≡ b
hex-injective a b ha hb h =
    some_same a b (sym (from_hex-hex a ha) ∙ ap from_hex h ∙ from_hex-hex b hb)

module _ (a b : Bytes) (all_a : AllBytes a) (all_b : AllBytes b) (long_a : length a ≡ 32)
    (long_b : length b ≡ 32) where
  same_file : text_eq (file_name (hex a)) (file_name (hex b)) ≡ text_eq a b
  same_file = elim (Bool-cases (text_eq a b)) [
    | inl e ↦ rw ((text_eq_iff a b).0 e, text_eq_refl b) (text_eq_refl (file_name (hex b)))
    | inr e ↦ elim (Bool-cases (text_eq (file_name (hex a)) (file_name (hex b)))) [
      | inl f ↦ cc (
        text_eq_refl a,
        ap (text_eq a) (
            hex-injective a b all_a all_b (
              file_name-injective (hex a) (hex b)
                (omega (arith, length-hex a, length-hex b, long_a, long_b))
                ((text_eq_iff (file_name (hex a)) (file_name (hex b))).0 f))),
      )
      | inr f ↦ f ∙ sym e
    ]
  ]

  -- A record that is saved under a deposit id of 32 bytes is read back from its JSON object under this id
  -- with all its fields, if it passes the checks of `__post_init__`, and is refused as they refuse it
  -- otherwise; what is read under any other id of 32 bytes is as it was before.
  pub get_record-save_record :
      (r : SweepRecord) (s : Engine)
      → r.deposit_id_hex ≡ to_hex a
      → (get_record (to_hex b) (save_record r s).1).0 ≡ (
          if text_eq a b
          then then_do (post_init r) (λ x. ok (some x))
          else (get_record (to_hex b) s).0)
  unfolding get_record save_record ◌>>=◌
  get_record-save_record r s its =
      let from = record_path-to_hex a all_a long_a in
      let to = record_path-to_hex b all_b long_b in
      simp (to, its, from, lookup-insert, same_file)
        (elim (Bool-cases (text_eq a b)) [
          | inl e ↦ rw e (ap (λ o. then_do o (λ x. ok (some x))) (read_file-saved r))
          | inr e ↦ rw e refl
        ])
