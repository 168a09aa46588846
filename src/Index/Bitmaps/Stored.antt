-- ===== src/Index/Bitmaps/Stored.antt =====
-- What the bitmap operations read and leave in the database.
use pebble_bitmap_store_note.Prelude.{
  ℕ, ◌≡◌, refl, sym, ap, ◌∙◌, Bool, true, false, Option, none, some, Bytes, ok, err, ◌>>=◌,
  >>=-eq-ok, if◌then◌else◌, ok-injective,
}
use pebble_bitmap_store_note.Packages.PebbleDb.{Pebble}
use pebble_bitmap_store_note.Packages.Roaring64.{Roaring}
use pebble_bitmap_store_note.Encoding.Keys.{string_bitmap_key, numeric_bitmap_key}
use pebble_bitmap_store_note.Index.Bitmaps.{get_string_bitmap, get_numeric_bitmap}

module _ (p : Pebble) (r : Roaring) where
  open p use {Db, view, get, set, delete, get_view, set_view, delete_view}
  open r use {
    Bitmap, contains, new, run_optimize, write_to, unmarshal_binary, contains-new,
    contains-run_optimize, unmarshal-write,
  }

  -- Membership in the bitmap that a stored value encodes.
  abbrev pub decoded : Option Bytes → ℕ → Bool
  decoded none i = false
  decoded (some s) i = elim (unmarshal_binary s) [ ok b ↦ contains b i | err _ ↦ false ]

  -- `i` is in the bitmap that the database holds at the key `k`.
  unfoldable pub stored : Db → Bytes → ℕ → Bool
  stored d k = decoded (view d k)

  pub decoded-if :
      (t : Bool) (o q : Option Bytes) (i : ℕ)
      → decoded (if t then o else q) i ≡ (if t then decoded o i else decoded q i)
  decoded-if true o q i = refl
  decoded-if false o q i = refl

  unmarshal_value :
      (o : Option Bytes) (b : Bitmap) (i : ℕ)
      → (elim o [ none ↦ ok new | some s ↦ unmarshal_binary s ]) ≡ ok b
      → contains b i ≡ decoded o i
  unmarshal_value none b i h = rw (sym (ok-injective h)) (contains-new i)
  unmarshal_value (some s) b i h = rw (h, decoded)

  contains-get :
      (d : Db) (k : Bytes) (b : Bitmap) (i : ℕ)
      → (get d k >>= λ val. elim val [ none ↦ ok new | some s ↦ unmarshal_binary s ]) ≡ ok b
      → contains b i ≡ stored d k i
  unfolding stored
  contains-get d k b i h =
      let (o, e, h') = >>=-eq-ok (get d k) _ h in
      unmarshal_value o b i h' ∙ ap (λ x. decoded x i) (get_view d k o e)

  pub contains-get_string_bitmap :
      (d : Db) (name value : Bytes) (b : Bitmap) (i : ℕ)
      → get_string_bitmap p r d name value ≡ ok b
      → contains b i ≡ stored d (string_bitmap_key name value) i
  unfolding get_string_bitmap
  contains-get_string_bitmap d name value b i h =
      contains-get d (string_bitmap_key name value) b i h

  pub contains-get_numeric_bitmap :
      (d : Db) (name : Bytes) (value : ℕ) (b : Bitmap) (i : ℕ)
      → get_numeric_bitmap p r d name value ≡ ok b
      → contains b i ≡ stored d (numeric_bitmap_key name value) i
  unfolding get_numeric_bitmap
  contains-get_numeric_bitmap d name value b i h =
      contains-get d (numeric_bitmap_key name value) b i h
