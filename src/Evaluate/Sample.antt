-- ===== src/Evaluate/Sample.antt =====
-- The entity 7 with the attribute a = 1, and nothing else.
use mathlib.Core.Bool.{false≢true}
use pebble_bitmap_store_note.Prelude.{
  ℕ, ◌≡◌, ◌≢◌, refl, sym, ap, ap₂, ◌∙◌, true, false, ◌&&◌, Option, none, some, [], ◌∷◌, Bytes,
  bytes_eq, bytes_eq_iff, bytes_eq_refl, codes, ◌==◌, Bool-cases, inl, inr, ok-injective, arith,
  if◌then◌else◌,
}
use pebble_bitmap_store_note.Packages.InMemory.{Table, table_db, list_bitmaps, lookup}
use pebble_bitmap_store_note.Encoding.Keys.{
  numeric_bitmap_key, string_bitmap_key, prefix_string_bitmap, decode_numeric_bitmap_key,
}
use pebble_bitmap_store_note.Encoding.Keys.RoundTrip.{decode_numeric-key}
use pebble_bitmap_store_note.Encoding.Ranges.{has_prefix}
use pebble_bitmap_store_note.Index.Bitmaps.Stored.{stored}
use pebble_bitmap_store_note.Index.Attributes.{Attributes, Indexes, passes, FitsNumber}

abbrev pub a_name : Bytes
a_name = codes "a"

abbrev pub sample_db : Table
sample_db = (numeric_bitmap_key a_name 1, 7 ∷ []) ∷ []

abbrev pub sample_attributes : Attributes
sample_attributes = record {
  strings = λ i n. none;
  numbers = λ i n. if (i == 7) && bytes_eq n a_name then some 1 else none;
}

-- The one key of the database.
the_key : (k s : Bytes) → lookup sample_db k ≡ some s → k ≡ numeric_bitmap_key a_name 1
unfolding lookup
the_key k s h = elim (Bool-cases (bytes_eq (numeric_bitmap_key a_name 1) k)) [
  | inl e ↦ sym ((bytes_eq_iff (numeric_bitmap_key a_name 1) k).0 e)
  | inr e ↦ absurd (none≢some (rw e at h))
]
  where
    none≢some : {v : Bytes} → ◌≡◌ {A = Option Bytes} none (some v) → ⊥
    none≢some q = cc

not_string : (n v : Bytes) → bytes_eq (numeric_bitmap_key a_name 1) (string_bitmap_key n v) ≡ false
unfolding bytes_eq numeric_bitmap_key string_bitmap_key
not_string n v = refl

not_tagged : has_prefix (prefix_string_bitmap ∷ []) (numeric_bitmap_key a_name 1) ≡ false
unfolding has_prefix numeric_bitmap_key
not_tagged = refl

-- Equal numeric keys have equal names and values.
same_key :
    (n : Bytes) (v : ℕ)
    → FitsNumber n v
    → numeric_bitmap_key a_name 1 ≡ numeric_bitmap_key n v
    → ◌≡◌ {A = Bytes × ℕ} (a_name, 1) (n, v)
same_key n v fits e = ok-injective (
    sym (decode_numeric-key a_name 1 (omega arith) (omega arith))
    ∙ ap decode_numeric_bitmap_key e
    ∙ decode_numeric-key n v fits.0 fits.1)

sample_stored :
    (i : ℕ) (n : Bytes) (v : ℕ)
    → FitsNumber n v
    → stored table_db list_bitmaps sample_db (numeric_bitmap_key n v) i
      ≡ passes (λ w. w == v) (sample_attributes.numbers i n)
unfolding stored lookup
sample_stored i n v fits =
    elim (Bool-cases (bytes_eq (numeric_bitmap_key a_name 1) (numeric_bitmap_key n v))) [
      | inl e ↦
          let same =
            same_key n v fits
              ((bytes_eq_iff (numeric_bitmap_key a_name 1) (numeric_bitmap_key n v)).0 e) in
          let name : bytes_eq n a_name ≡ true =
            (bytes_eq_iff n a_name).1 (sym (ap (λ (x : Bytes × ℕ). x.0) same)) in
          let value : v ≡ 1 = sym (ap (λ (x : Bytes × ℕ). x.1) same) in rw e (ground arith)
      | inr e ↦ elim (Bool-cases (bytes_eq n a_name)) [
        | inl name ↦
            let other : v ≢ 1 = λ value. false≢true (
              sym e
              ∙ ap₂
                  (λ (m : Bytes) (w : ℕ).
                    bytes_eq (numeric_bitmap_key a_name 1) (numeric_bitmap_key m w))
                  ((bytes_eq_iff n a_name).0 name) value
              ∙ bytes_eq_refl (numeric_bitmap_key a_name 1)) in
            rw (e, name) (ground arith)
        | inr name ↦ rw (e, name) (ground arith)
      ]
    ]

string_absent :
    (i : ℕ) (n v : Bytes) → stored table_db list_bitmaps sample_db (string_bitmap_key n v) i ≡ false
unfolding stored lookup
string_absent i n v = rw (not_string n v)

some_number_fits :
    (i : ℕ) (n : Bytes) (v : ℕ) → sample_attributes.numbers i n ≡ some v → FitsNumber n v
some_number_fits i n v h = elim (Bool-cases (bytes_eq n a_name)) [
  | inl e ↦
      let name : n ≡ a_name = (bytes_eq_iff n a_name).0 e in
      let value : v ≡ 1 = ground arith in rw (name, value) (omega arith)
  | inr e ↦ absurd (ground arith)
]

pub sample-Indexes : Indexes table_db list_bitmaps sample_db sample_attributes
sample-Indexes = record {
  string_fits = λ i n v h. absurd (cc);
  string_stored = λ i n v h. string_absent i n v;
  string_keys = λ k s held tagged. absurd (
      false≢true (
        sym not_tagged
        ∙ ap (has_prefix (prefix_string_bitmap ∷ [])) (sym (the_key k s held))
        ∙ tagged));
  number_fits = some_number_fits;
  number_stored = sample_stored;
  number_keys = λ k s held tagged. (a_name, 1, the_key k s held, (omega arith, omega arith));
}
