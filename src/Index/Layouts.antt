-- ===== src/Index/Layouts.antt =====
-- The string keys and the numeric keys of an attribute name, as layouts.
use pebble_bitmap_store_note.Prelude.{
  ℕ, ◌+◌, ◌%◌, ◌<◌, ◌≡◌, refl, sym, ap, ◌∙◌, subst, true, [], ◌∷◌, ◌++◌, Bytes, bytes_eq,
  bytes_eq_iff, length, ◌==◌, ==_iff, All, arith,
}
use pebble_bitmap_store_note.Encoding.Integers.{put_uint16}
use pebble_bitmap_store_note.Encoding.Keys.{
  prefix_string_bitmap, prefix_numeric_bitmap, string_bitmap_key, numeric_bitmap_key,
  string_bitmap_name_prefix, numeric_bitmap_name_prefix, decode_string_bitmap_key,
  decode_numeric_bitmap_key,
}
use pebble_bitmap_store_note.Encoding.Keys.RoundTrip.{
  decode_string-key, decode_numeric-key, string_name_prefix-injective,
  numeric_name_prefix-injective, string_key-append, numeric_key-append,
}
use pebble_bitmap_store_note.Encoding.Ranges.{in_range, has_prefix, prefix_upper_bound}
use pebble_bitmap_store_note.Encoding.Ranges.Utf8.{
  EndsBelow, in_range-has_prefix, has_prefix-append, has_prefix-split,
}
use pebble_bitmap_store_note.Packages.PebbleDb.{Pebble}
use pebble_bitmap_store_note.Packages.Roaring64.{Roaring}
use pebble_bitmap_store_note.Index.Attributes.{Attributes, Indexes, FitsString, FitsNumber}
use pebble_bitmap_store_note.Index.Values.Selected.{KeyLayout, IndexedAt}

-- A name that a scan can look for: short enough for its length field, and with no byte 255, which
-- UTF-8 never has.
pub record IsName (name : Bytes) : Type 0 where
  pub short : length name + 5 < 65536
  pub utf8 : All (λ b. b < 255) name

EndsBelow-cons : (b : ℕ) (s : Bytes) → b < 255 → All (λ c. c < 255) s → EndsBelow (b ∷ s)
EndsBelow-cons b [] h k = h
EndsBelow-cons b (c ∷ s) h k = EndsBelow-cons c s k.0 k.1

-- The prefix of a name ends in the name, or in the low byte of the length 0.
EndsBelow-tagged :
    (p : ℕ) (name : Bytes)
    → IsName name
    → EndsBelow (p ∷ (put_uint16 (length name % 65536) ++ name))
unfolding put_uint16
EndsBelow-tagged p [] h = omega arith
EndsBelow-tagged p (c ∷ name) h = EndsBelow-cons c name h.utf8.0 h.utf8.1

-- Every key of a name begins with the byte of its kind.
string-tag :
    (name s : Bytes)
    → has_prefix (prefix_string_bitmap ∷ []) (string_bitmap_name_prefix name ++ s) ≡ true
unfolding has_prefix string_bitmap_name_prefix
string-tag name s = refl

numeric-tag :
    (name s : Bytes)
    → has_prefix (prefix_numeric_bitmap ∷ []) (numeric_bitmap_name_prefix name ++ s) ≡ true
unfolding has_prefix numeric_bitmap_name_prefix
numeric-tag name s = refl

module _ (name : Bytes) (h : IsName name) where
  pub string-in_range :
      (v : Bytes)
      → in_range
          (string_bitmap_name_prefix name)
          (prefix_upper_bound (string_bitmap_name_prefix name))
          (string_bitmap_key name v)
        ≡ true
  string-in_range v =
      let (s, e) = string_key-append name v in
      in_range-has_prefix (string_bitmap_name_prefix name) (string_bitmap_key name v)
        (unfold string_bitmap_name_prefix in EndsBelow-tagged prefix_string_bitmap name h)
      ∙ ap (has_prefix (string_bitmap_name_prefix name)) e
      ∙ has_prefix-append (string_bitmap_name_prefix name) s

  abbrev pub string_layout : KeyLayout Bytes name
  string_layout = record {
    key = string_bitmap_key name;
    decode = decode_string_bitmap_key;
    lower = string_bitmap_name_prefix name;
    eq = bytes_eq;
    Fits = FitsString name;
    eq_iff = bytes_eq_iff;
    decode-key = decode_string-key name;
    key-in_range = λ v _. string-in_range v;
  }

  pub numeric-in_range :
      (v : ℕ)
      → in_range
          (numeric_bitmap_name_prefix name)
          (prefix_upper_bound (numeric_bitmap_name_prefix name))
          (numeric_bitmap_key name v)
        ≡ true
  numeric-in_range v =
      let (s, e) = numeric_key-append name v in
      in_range-has_prefix (numeric_bitmap_name_prefix name) (numeric_bitmap_key name v)
        (unfold numeric_bitmap_name_prefix in EndsBelow-tagged prefix_numeric_bitmap name h)
      ∙ ap (has_prefix (numeric_bitmap_name_prefix name)) e
      ∙ has_prefix-append (numeric_bitmap_name_prefix name) s

  abbrev pub numeric_layout : KeyLayout ℕ name
  numeric_layout = record {
    key = numeric_bitmap_key name;
    decode = decode_numeric_bitmap_key;
    lower = numeric_bitmap_name_prefix name;
    eq = λ v w. v == w;
    Fits = FitsNumber name;
    eq_iff = ==_iff;
    decode-key = λ v fits. decode_numeric-key name v fits.0 fits.1;
    key-in_range = λ v _. numeric-in_range v;
  }

  module _ (p : Pebble) (r : Roaring) (d : p.Db) (a : Attributes) (x : Indexes p r d a)
      (i : ℕ) where
    pub string-IndexedAt : IndexedAt p r string_layout d i (a.strings i name)
    string-IndexedAt = record {
      only_keys = λ k s held inside.
          let prefixed : has_prefix (string_bitmap_name_prefix name) k ≡ true =
            sym (
              in_range-has_prefix (string_bitmap_name_prefix name) k
                (unfold string_bitmap_name_prefix in EndsBelow-tagged prefix_string_bitmap name h))
            ∙ inside in
          let (rest, split) = has_prefix-split (string_bitmap_name_prefix name) k prefixed in
          let tagged : has_prefix (prefix_string_bitmap ∷ []) k ≡ true =
            ap (has_prefix (prefix_string_bitmap ∷ [])) split ∙ string-tag name rest in
          let (n, v, e, fits) = x.string_keys k s held tagged in
          let same : name ≡ n =
            string_name_prefix-injective name n (omega (arith, h.short)) (omega arith) v rest
              (sym e ∙ split) in
          (
            v,
            e ∙ ap (λ m. string_bitmap_key m v) (sym same),
            subst (λ m. FitsString m v) (sym same) fits,
          );
      fits = x.string_fits i name;
      at_key = x.string_stored i name;
    }

    pub numeric-IndexedAt : IndexedAt p r numeric_layout d i (a.numbers i name)
    numeric-IndexedAt = record {
      only_keys = λ k s held inside.
          let prefixed : has_prefix (numeric_bitmap_name_prefix name) k ≡ true =
            sym (
              in_range-has_prefix (numeric_bitmap_name_prefix name) k (
                unfold numeric_bitmap_name_prefix in EndsBelow-tagged prefix_numeric_bitmap name h))
            ∙ inside in
          let (rest, split) = has_prefix-split (numeric_bitmap_name_prefix name) k prefixed in
          let tagged : has_prefix (prefix_numeric_bitmap ∷ []) k ≡ true =
            ap (has_prefix (prefix_numeric_bitmap ∷ [])) split ∙ numeric-tag name rest in
          let (n, v, e, fits) = x.number_keys k s held tagged in
          let same : name ≡ n =
            numeric_name_prefix-injective name n (omega (arith, h.short)) (omega arith) v rest
              (sym e ∙ split) in
          (
            v,
            e ∙ ap (λ m. numeric_bitmap_key m v) (sym same),
            subst (λ m. FitsNumber m v) (sym same) fits,
          );
      fits = x.number_fits i name;
      at_key = x.number_stored i name;
    }
