-- ===== src/Events/Reindex.antt =====
-- Taking an entity out of the index and putting it in, by the loops over its attributes.
use pebble_bitmap_store_note.Prelude.{
  ℕ, ◌≡◌, refl, sym, ap, ◌∙◌, Bool, true, false, not, ◌&&◌, ◌||◌, ◌==◌, ==_iff, Option, none, some,
  [], ◌∷◌, In, List, All, Bytes, bytes_eq, ok, if◌then◌else◌, arith, or_false, inl, inr,
}
use pebble_bitmap_store_note.Encoding.Keys.{string_bitmap_key, numeric_bitmap_key}
use pebble_bitmap_store_note.Index.Attributes.{Attributes, passes, FitsString, FitsNumber}
use pebble_bitmap_store_note.Index.Bitmaps.Stored.{stored}
use pebble_bitmap_store_note.Evaluate.Total.Scans.{Serves}
use pebble_bitmap_store_note.Maps.{Entries, get_entry}
use pebble_bitmap_store_note.Maps.Laws.{IsMap, In-get_entry}
use pebble_bitmap_store_note.Cache.Changes.{in_cache}
use pebble_bitmap_store_note.Cache.Overlay.{find, same_number}
use pebble_bitmap_store_note.Events.Operations.{Environment, Db, Cache}
use pebble_bitmap_store_note.Events.Loops.{add_strings, remove_strings, add_numbers, remove_numbers}
use pebble_bitmap_store_note.Events.Holds.{
  holds_string, holds_number, add_strings-holds, remove_strings-holds, add_numbers-holds,
  remove_numbers-holds,
}
use pebble_bitmap_store_note.Events.Cached.{
  IsCache, add_strings-IsCache, remove_strings-IsCache, add_numbers-IsCache, remove_numbers-IsCache,
}
use pebble_bitmap_store_note.Events.Among.{indexed_number, string_among-passes, number_among-passes}
use pebble_bitmap_store_note.Events.Tracks.{set_entity, Runs, Readable, Readable-Serves, Holds}

module _ {V : Type 0} (f : V → Bool) where
  added :
      (t : Bool) (new old : Option V) (h : Bool)
      → h ≡ passes f old
      → (t ≡ true → old ≡ none)
      → ((t && passes f new) || h) ≡ passes f (if t then new else old)
  added true new old h e absent = rw (e ∙ ap (passes f) (absent refl)) (or_false (passes f new))
  added false new old h e absent = e

  removed :
      (t : Bool) (was old : Option V) (h : Bool)
      → h ≡ passes f old
      → (t ≡ true → old ≡ was)
      → (not (t && passes f was) && h) ≡ passes f (if t then none else old)
  removed true was old h e there = rw (e ∙ ap (passes f) (there refl)) (excluded (passes f was))
    where
      excluded : (b : Bool) → (not b && b) ≡ false
      excluded true = refl
      excluded false = refl
  removed false was old h e there = e

In-All : {A : Type 0} (P : A → Type 0) (l : List A) → ((x : A) → In x l → P x) → All P l
In-All P [] h = tt
In-All P (x ∷ l) h = (h x (inl refl), In-All P l (λ y m. h y (inr m)))

module _ (env : Environment) (runs : Runs env) (d : Db env) (readable : Readable env d) (id : ℕ)
    (strs : Entries Bytes) (nums : Entries ℕ) (strs-IsMap : IsMap strs) (nums-IsMap : IsMap nums)
    (strs-fit : (n v : Bytes) → get_entry strs n ≡ some v → FitsString n v)
    (nums-fit : (n : Bytes) (v : ℕ) → get_entry nums n ≡ some v → FitsNumber n v) where
  open env use {pebble, roaring, string_range, number_range}

  serves : Serves pebble roaring d
  serves = Readable-Serves env runs d readable

  strings_fit : All (λ (kv : Bytes × Bytes). FitsString kv.0 kv.1) (string_range strs)
  strings_fit =
      In-All (λ (kv : Bytes × Bytes). FitsString kv.0 kv.1) (string_range strs)
        (λ kv m.
          strs-fit kv.0 kv.1
            (In-get_entry strs kv.0 kv.1 strs-IsMap ((runs.string_range_In strs kv).0 m)))

  numbers_fit : All (λ (kv : Bytes × ℕ). FitsNumber kv.0 kv.1) (number_range nums)
  numbers_fit =
      In-All (λ (kv : Bytes × ℕ). FitsNumber kv.0 kv.1) (number_range nums)
        (λ kv m.
          nums-fit kv.0 kv.1
            (In-get_entry nums kv.0 kv.1 nums-IsMap ((runs.number_range_In nums kv).0 m)))

  -- The two loops that add an entity, which had no attributes in the index.
  pub add_entity :
      (c : Cache env) (a : Attributes)
      → Holds env d c a
      → IsCache pebble roaring c
      → ((n : Bytes) → (a.strings id n ≡ none) × (a.numbers id n ≡ none))
      → (c1 : Cache env) × (c2 : Cache env) × (add_strings pebble roaring d id c (string_range strs)
          ≡ ok c1)
        × (add_numbers pebble roaring d id c1 (number_range nums) ≡ ok c2)
        × Holds env d c2 (set_entity a id strs nums)
        × IsCache pebble roaring c2
  add_entity c a holds cached absent =
      let (c1, e1, same1, f1) =
        add_strings-holds pebble roaring d serves id c (string_range strs) in
      let (c2, e2, same2, f2) =
        add_numbers-holds pebble roaring d serves id c1 (number_range nums) in
      (
        c1,
        c2,
        e1,
        e2,
        record {
          strings = λ i n v fits.
              ap
                (λ e.
                  in_cache roaring (find bytes_eq e n v)
                    (stored pebble roaring d (string_bitmap_key n v) i) i)
                same2
              ∙ f1 n v i
              ∙ ap (λ t. ((id == i) && t) || holds_string pebble roaring d c n v i)
                  (string_among-passes strs (string_range strs) strs-IsMap
                    (runs.string_range_In strs) n v)
              ∙ added (λ w. bytes_eq w v) (id == i) (get_entry strs n) (a.strings i n) _
                  (holds.strings i n v fits)
                  (λ t. ap (λ j. a.strings j n) (sym ((==_iff id i).0 t)) ∙ (absent n).0);
          numbers = λ i n v fits.
              f2 n v i
              ∙ ap (λ t. ((id == i) && t) || holds_number pebble roaring d c1 n v i)
                  (number_among-passes nums (number_range nums) nums-IsMap
                    (runs.number_range_In nums) n v)
              ∙ added (λ w. w == v) (id == i) (indexed_number nums n) (a.numbers i n) _
                  (ap
                      (λ e.
                        in_cache roaring (find same_number e n v)
                          (stored pebble roaring d (numeric_bitmap_key n v) i) i)
                      same1
                    ∙ holds.numbers i n v fits)
                  (λ t. ap (λ j. a.numbers j n) (sym ((==_iff id i).0 t)) ∙ (absent n).1);
        },
        add_numbers-IsCache pebble roaring d id c1 c2 (number_range nums) numbers_fit
            (add_strings-IsCache pebble roaring d id c c1 (string_range strs) strings_fit cached e1)
            e2,
      )

  -- The two loops that remove an entity with these attributes.
  pub remove_entity :
      (c : Cache env) (a : Attributes)
      → Holds env d c a
      → IsCache pebble roaring c
      → ((n : Bytes)
          → (a.strings id n ≡ get_entry strs n) × (a.numbers id n ≡ indexed_number nums n))
      → (c1 : Cache env) × (c2 : Cache env) × (remove_strings pebble roaring d id c
            (string_range strs)
          ≡ ok c1)
        × (remove_numbers pebble roaring d id c1 (number_range nums) ≡ ok c2)
        × Holds env d c2 (set_entity a id [] [])
        × IsCache pebble roaring c2
  unfolding get_entry
  remove_entity c a holds cached there =
      let (c1, e1, same1, f1) =
        remove_strings-holds pebble roaring d serves id c (string_range strs) in
      let (c2, e2, same2, f2) =
        remove_numbers-holds pebble roaring d serves id c1 (number_range nums) in
      (
        c1,
        c2,
        e1,
        e2,
        record {
          strings = λ i n v fits.
              ap
                (λ e.
                  in_cache roaring (find bytes_eq e n v)
                    (stored pebble roaring d (string_bitmap_key n v) i) i)
                same2
              ∙ f1 n v i
              ∙ ap (λ t. not ((id == i) && t) && holds_string pebble roaring d c n v i)
                  (string_among-passes strs (string_range strs) strs-IsMap
                    (runs.string_range_In strs) n v)
              ∙ removed (λ w. bytes_eq w v) (id == i) (get_entry strs n) (a.strings i n) _
                  (holds.strings i n v fits)
                  (λ t. ap (λ j. a.strings j n) (sym ((==_iff id i).0 t)) ∙ (there n).0);
          numbers = λ i n v fits.
              f2 n v i
              ∙ ap (λ t. not ((id == i) && t) && holds_number pebble roaring d c1 n v i)
                  (number_among-passes nums (number_range nums) nums-IsMap
                    (runs.number_range_In nums) n v)
              ∙ removed (λ w. w == v) (id == i) (indexed_number nums n) (a.numbers i n) _
                  (ap
                      (λ e.
                        in_cache roaring (find same_number e n v)
                          (stored pebble roaring d (numeric_bitmap_key n v) i) i)
                      same1
                    ∙ holds.numbers i n v fits)
                  (λ t. ap (λ j. a.numbers j n) (sym ((==_iff id i).0 t)) ∙ (there n).1)
              ∙ ap (λ o. passes (λ w. w == v) (if id == i then o else a.numbers i n)) (no_number n);
        },
        remove_numbers-IsCache pebble roaring d id c1 c2 (number_range nums) numbers_fit
            (remove_strings-IsCache pebble roaring d id c c1 (string_range strs) strings_fit cached
              e1)
            e2,
      )
    where
      no_number : (n : Bytes) → ◌≡◌ {A = Option ℕ} none (indexed_number [] n)
      no_number n = ground arith
