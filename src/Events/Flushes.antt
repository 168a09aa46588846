-- ===== src/Events/Flushes.antt =====
-- The end of a batch: the cache is written to the batch.
use pebble_bitmap_store_note.Prelude.{
  ℕ, List, ◌≡◌, inl, inr, sym, ap, ◌∙◌, ◌==◌, ==_iff, some, ◌∷◌, Bytes, bytes_eq, bytes_eq_iff, ok,
  arith,
}
use pebble_bitmap_store_note.Encoding.Keys.{
  string_bitmap_key, numeric_bitmap_key, prefix_string_bitmap, prefix_numeric_bitmap,
}
use pebble_bitmap_store_note.Index.Attributes.{Attributes, passes, Indexes, FitsString, FitsNumber}
use pebble_bitmap_store_note.Index.Bitmaps.Stored.{stored, decoded}
use pebble_bitmap_store_note.Cache.{new_bitmap_cache, flush}
use pebble_bitmap_store_note.Cache.Overlay.{find, same_number}
use pebble_bitmap_store_note.Cache.Changes.{in_cache}
use pebble_bitmap_store_note.Cache.Flush.{Flushed, flush_entries-Flushed}
use pebble_bitmap_store_note.Events.Operations.{Environment, Db, Cache}
use pebble_bitmap_store_note.Events.Flushed.{
  string_key-injective, numeric_key-injective, first, first-string, first-numeric, prefix_cons,
  flush_strings-entries, flush_numbers-entries, KeepsRest, kept-Tracks,
}
use pebble_bitmap_store_note.Events.Tracks.{EntityRow, Runs, Readable, Holds, Tracks}

module _ (env : Environment) (runs : Runs env) where
  open env use {pebble, roaring}

  -- The batch before, after the strings and after the numbers.
  module _ (d d1 d2 : Db env) (c : Cache env) (a : Attributes) (readable : Readable env d)
      (holds : Holds env d c a)
      (strs : Flushed pebble roaring runs.reliable runs.writes bytes_eq bytes_eq_iff FitsString
        string_bitmap_key string_key-injective c.string_bitmaps d d1)
      (nums : Flushed pebble roaring runs.reliable runs.writes same_number ==_iff FitsNumber
        numeric_bitmap_key numeric_key-injective c.numeric_bitmaps d1 d2) where
    not_number :
        (k : Bytes) → (first k ≡ prefix_numeric_bitmap → ⊥) → pebble.view d2 k ≡ pebble.view d1 k
    not_number k out = nums.others k (λ m w f e. out (ap first (sym e) ∙ first-numeric m w))

    not_string :
        (k : Bytes) → (first k ≡ prefix_string_bitmap → ⊥) → pebble.view d1 k ≡ pebble.view d k
    not_string k out = strs.others k (λ m w f e. out (ap first (sym e) ∙ first-string m w))

    apart : prefix_string_bitmap ≡ prefix_numeric_bitmap → ⊥
    apart e = omega arith

    string_view :
        (n v : Bytes)
        → pebble.view d2 (string_bitmap_key n v) ≡ pebble.view d1 (string_bitmap_key n v)
    string_view n v = not_number _ (λ e. apart (sym (first-string n v) ∙ e))

    number_view :
        (n : Bytes) (v : ℕ)
        → pebble.view d1 (numeric_bitmap_key n v) ≡ pebble.view d (numeric_bitmap_key n v)
    number_view n v = not_string _ (λ e. apart (sym e ∙ first-numeric n v))

    flushed-KeepsRest : KeepsRest env runs d d2
    flushed-KeepsRest k out_string out_number = not_number k out_number ∙ not_string k out_string

    flushed_string :
        (i : ℕ) (n v : Bytes)
        → FitsString n v
        → stored pebble roaring d2 (string_bitmap_key n v) i
          ≡ passes (λ w. bytes_eq w v) (a.strings i n)
    unfolding stored
    flushed_string i n v fits =
        ap (λ o. decoded pebble roaring o i) (string_view n v)
        ∙ strs.has n v i fits
        ∙ holds.strings i n v fits

    flushed_number :
        (i : ℕ) (n : Bytes) (v : ℕ)
        → FitsNumber n v
        → stored pebble roaring d2 (numeric_bitmap_key n v) i ≡ passes (λ w. w == v) (a.numbers i n)
    unfolding stored
    flushed_number i n v fits =
        nums.has n v i fits
        ∙ ap
            (λ o.
              in_cache roaring (find same_number c.numeric_bitmaps n v) (decoded pebble roaring o i)
                i)
            (number_view n v)
        ∙ holds.numbers i n v fits

    flushed-Readable : Readable env d2
    unfolding first
    flushed-Readable = record {
      string_bitmaps = λ n v s e. elim (strs.values _ s (sym (string_view n v) ∙ e)) [
        | inl old ↦ readable.string_bitmaps n v s old
        | inr (done, _, _, _, _) ↦ done
      ];
      numeric_bitmaps = λ n v s e. elim (nums.values _ s e) [
        | inl old ↦ readable.numeric_bitmaps n v s (sym (number_view n v) ∙ old)
        | inr (done, _, _, _, _) ↦ done
      ];
      string_keys = λ k s e.
          elim (strs.values _ s (sym (not_number (prefix_string_bitmap ∷ k) apart) ∙ e)) [
            | inl old ↦ readable.string_keys k s old
            | inr (_, m, w, f, at) ↦ (m, w, sym at, f)
          ];
      number_keys = λ k s e. elim (nums.values _ s e) [
        | inl old ↦
            readable.number_keys k s
              (sym (not_string (prefix_numeric_bitmap ∷ k) (λ q. apart (sym q))) ∙ old)
        | inr (_, m, w, f, at) ↦ (m, w, sym at, f)
      ];
    }

    flushed-Holds : Holds env d2 (new_bitmap_cache pebble roaring) a
    unfolding find
    flushed-Holds = record { strings = flushed_string; numbers = flushed_number }

    flushed-Indexes :
        ((i : ℕ) (n v : Bytes) → a.strings i n ≡ some v → FitsString n v)
        → ((i : ℕ) (n : Bytes) (v : ℕ) → a.numbers i n ≡ some v → FitsNumber n v)
        → Indexes pebble roaring d2 a
    flushed-Indexes strings_fit numbers_fit = record {
      string_fits = strings_fit;
      string_stored = flushed_string;
      string_keys = λ k s e h.
          let (rest, at) = prefix_cons prefix_string_bitmap k h in
          let (n, v, at', f) =
            flushed-Readable.string_keys rest s (ap (pebble.view d2) (sym at) ∙ e) in
          (n, v, at ∙ at', f);
      number_fits = numbers_fit;
      number_stored = flushed_number;
      number_keys = λ k s e h.
          let (rest, at) = prefix_cons prefix_numeric_bitmap k h in
          let (n, v, at', f) =
            flushed-Readable.number_keys rest s (ap (pebble.view d2) (sym at) ∙ e) in
          (n, v, at ∙ at', f);
    }

  -- While the packages serve every call, `Flush` succeeds and leaves a database that indexes the
  -- attributes by itself, with the rows as they were.
  pub flush-Tracks :
      (next : ℕ) (keys : List Bytes) (rows : Bytes → EntityRow) (d : Db env) (c : Cache env)
      (a : Attributes)
      → Tracks env next keys rows d c a
      → (d' : Db env) × (flush pebble roaring c d ≡ ok d')
        × Tracks env next keys rows d' (new_bitmap_cache pebble roaring) a
        × Indexes pebble roaring d' a
        × KeepsRest env runs d d'
  unfolding flush
  flush-Tracks next keys rows d c a t =
      let (d1, e1, strs) =
        flush_entries-Flushed pebble roaring runs.reliable runs.writes bytes_eq bytes_eq_iff
          FitsString string_bitmap_key string_key-injective c.string_bitmaps d t.cached.0 in
      let (d2, e2, nums) =
        flush_entries-Flushed pebble roaring runs.reliable runs.writes same_number ==_iff FitsNumber
          numeric_bitmap_key numeric_key-injective c.numeric_bitmaps d1 t.cached.1 in
      let keeps : KeepsRest env runs d d2 =
        flushed-KeepsRest d d1 d2 c a t.readable t.holds strs nums in
      (
        d2,
        rw
            (
              flush_strings-entries env runs c.string_bitmaps d,
              e1,
              flush_numbers-entries env runs c.numeric_bitmaps d1,
            )
            e2,
        kept-Tracks env runs d d2 (λ k _. keeps k) next keys rows c
            (new_bitmap_cache pebble roaring) a t
            (flushed-Readable d d1 d2 c a t.readable t.holds strs nums) (tt, tt)
            (flushed-Holds d d1 d2 c a t.readable t.holds strs nums),
        flushed-Indexes d d1 d2 c a t.readable t.holds strs nums t.strings_fit t.numbers_fit,
        keeps,
      )
