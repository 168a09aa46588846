-- ===== src/Cache/Flush.antt =====
-- What `Flush` leaves in the batch: each bitmap of the cache at its key, and every other key as it
-- was.
use pebble_bitmap_store_note.Prelude.{
  ℕ, ◌≡◌, ◌↔◌, ◌⊎◌, inl, inr, refl, sym, ap, ap₂, ◌∙◌, Bool, true, false, ◌&&◌, Option, none, some,
  [], ◌∷◌, Bytes, bytes_eq, bytes_eq_iff, Bool-cases, Result, ok, Ok, ◌>>=◌, if◌then◌else◌, arith,
  eq_of_some,
}
use pebble_bitmap_store_note.Packages.PebbleDb.{Pebble, Reliable}
use pebble_bitmap_store_note.Packages.Roaring64.{Roaring}
use pebble_bitmap_store_note.Index.Bitmaps.Stored.{stored, decoded, decoded-if}
use pebble_bitmap_store_note.Cache.Overlay.{Entries, find}
use pebble_bitmap_store_note.Cache.Changes.{in_cache}
use pebble_bitmap_store_note.Cache.Distinct.{IsOverlay}

none≢some : {s : Bytes} → ◌≡◌ {A = Option Bytes} none (some s) → ⊥
none≢some e = cc

both_true : (s t : Bool) → (s && t) ≡ true → (s ≡ true) × (t ≡ true)
both_true s t h = (ground arith, ground arith)

true≢false : true ≡ false → ⊥
true≢false e = cc

module _ (p : Pebble) (r : Roaring) (reliable : Reliable p)
    (writes : (b : r.Bitmap) → Ok (r.write_to b)) where
  open p use {Db, view, set, delete, set_view, delete_view}
  open r use {
    Bitmap, contains, run_optimize, is_empty, write_to, unmarshal_binary, unmarshal-write,
    is_empty_iff, contains-run_optimize,
  }

  -- One bitmap at one key.
  abbrev pub write_bitmap : Db → Bytes → Bitmap → Result Db
  write_bitmap d k b =
      if is_empty b
      then delete d k
      else (write_to (run_optimize (run_optimize b)) >>= λ encoded. set d k encoded)

  -- The key has a value, or none, that stands for the bitmap.
  abbrev Wrote : Db → Db → Bytes → Bitmap → Type 0
  Wrote d d' k b =
      (o : Option Bytes) × ((j : Bytes) → view d' j ≡ (if bytes_eq k j then o else view d j))
      × ((i : ℕ) → decoded p r o i ≡ contains b i)
      × ((s : Bytes) → o ≡ some s → Ok (unmarshal_binary s))

  write_bitmap-Wrote :
      (d : Db) (k : Bytes) (b : Bitmap) → (d' : Db) × (write_bitmap d k b ≡ ok d') × Wrote d d' k b
  write_bitmap-Wrote d k b = elim (Bool-cases (is_empty b)) [
    | inl e ↦
        let (d', deleted) = reliable.deletes d k in
        (
          d',
          rw e deleted,
          (
            none,
            λ j. delete_view d d' k j deleted,
            λ i. sym ((is_empty_iff b).0 e i),
            λ s h. absurd (none≢some h),
          ),
        )
    | inr e ↦
        let (s, written) = writes (run_optimize (run_optimize b)) in
        let (d', done) = reliable.sets d k s in
        let (c, read, same) = unmarshal-write (run_optimize (run_optimize b)) s written in
        (
          d',
          rw (e, written) done,
          (
            some s,
            λ j. set_view d d' k s j done,
            λ i.
                rw (read, decoded)
                  (same i ∙ contains-run_optimize (run_optimize b) i ∙ contains-run_optimize b i),
            λ s' h. (c, ap unmarshal_binary (sym (eq_of_some h)) ∙ read),
          ),
        )
  ]

  Wrote-stored :
      (d d' : Db) (k : Bytes) (b : Bitmap)
      → Wrote d d' k b
      → (j : Bytes) (i : ℕ)
      → stored p r d' j i ≡ (if bytes_eq k j then contains b i else stored p r d j i)
  unfolding stored
  Wrote-stored d d' k b (o, views, value, _) j i =
      ap (λ x. decoded p r x i) (views j)
      ∙ decoded-if p r (bytes_eq k j) o (view d j) i
      ∙ ap (λ t. if bytes_eq k j then t else decoded p r (view d j) i) (value i)

  Wrote-other :
      (d d' : Db) (k : Bytes) (b : Bitmap)
      → Wrote d d' k b
      → (j : Bytes) → bytes_eq k j ≡ false
      → view d' j ≡ view d j
  Wrote-other d d' k b (o, views, _, _) j e = rw e at (views j)

  key_differs : (k j : Bytes) → (k ≡ j → ⊥) → bytes_eq k j ≡ false
  key_differs k j differ = elim (Bool-cases (bytes_eq k j)) [
    | inl e ↦ absurd (differ ((bytes_eq_iff k j).0 e))
    | inr e ↦ e
  ]

  module _ {V : Type 0} (eq : V → V → Bool) (eq_iff : (v w : V) → (eq v w ≡ true) ↔ (v ≡ w))
      (Fits : Bytes → V → Type 0) (key : Bytes → V → Bytes)
      (key-injective : (n m : Bytes) (v w : V)
        → Fits n v
        → Fits m w
        → key n v ≡ key m w
        → (n ≡ m) × (v ≡ w)) where
    -- The loop over one of the two maps.
    unfoldable pub flush_entries : Entries V Bitmap → Db → Result Db
    flush_entries [] batch = ok batch
    flush_entries ((n, v, b) ∷ rest) batch = do
      batch' ← write_bitmap batch (key n v) b
      flush_entries rest batch'

    -- The bitmaps after the loop; the keys that are not of the map; and each value that is read.
    pub record Flushed (entries : Entries V Bitmap) (d d' : Db) : Type 0 where
      pub has :
          (m : Bytes) (w : V) (i : ℕ)
          → Fits m w
          → stored p r d' (key m w) i
            ≡ in_cache r (find eq entries m w) (stored p r d (key m w) i) i
      pub others :
          (k : Bytes) → ((m : Bytes) (w : V) → Fits m w → key m w ≡ k → ⊥) → view d' k ≡ view d k
      pub values :
          (k s : Bytes)
          → view d' k ≡ some s
          → (view d k ≡ some s)
            ⊎ (Ok (unmarshal_binary s) × (m : Bytes) × (w : V) × Fits m w × (key m w ≡ k))

    -- One bitmap at the front of the map.
    module _ (n : Bytes) (v : V) (b : Bitmap) where
      same_key :
          (m : Bytes) (w : V)
          → Fits n v
          → Fits m w
          → (bytes_eq n m && eq v w) ≡ false
          → key n v ≡ key m w
          → ⊥
      same_key m w fits fits' differ e =
          let (same_name, same_value) = key-injective n m v w fits fits' e in
          true≢false
            (sym (ap₂ ◌&&◌ ((bytes_eq_iff n m).1 same_name) ((eq_iff v w).1 same_value)) ∙ differ)

      has_first :
          (rest : Entries V Bitmap) (d d1 : Db)
          → IsOverlay eq eq_iff Fits ((n, v, b) ∷ rest)
          → Wrote d d1 (key n v) b
          → (m : Bytes) (w : V) (i : ℕ) → Fits m w
          → in_cache r (find eq rest m w) (stored p r d1 (key m w) i) i
            ≡ in_cache r (find eq ((n, v, b) ∷ rest) m w) (stored p r d (key m w) i) i
      unfolding find
      has_first rest d d1 h wrote m w i f = elim (Bool-cases (bytes_eq n m && eq v w)) [
        | inl t ↦
            let (same_name, same_value) = both_true (bytes_eq n m) (eq v w) t in
            let name : n ≡ m = (bytes_eq_iff n m).0 same_name in
            let value : v ≡ w = (eq_iff v w).0 same_value in
            let missing : find eq rest m w ≡ none =
              ap₂ (find eq rest) (sym name) (sym value) ∙ h.1 in
            let here : bytes_eq (key n v) (key m w) ≡ true =
              (bytes_eq_iff (key n v) (key m w)).1 (ap₂ key name value) in
            rw (t, missing) (rw here at (Wrote-stored d d1 (key n v) b wrote (key m w) i))
        | inr t ↦
            let elsewhere : bytes_eq (key n v) (key m w) ≡ false =
              key_differs (key n v) (key m w) (same_key m w h.0 f t) in
            rw t (
              ap (λ x. in_cache r (find eq rest m w) x i)
                (rw elsewhere at (Wrote-stored d d1 (key n v) b wrote (key m w) i)))
      ]

      value_first :
          (d d1 : Db)
          → Fits n v
          → Wrote d d1 (key n v) b
          → (k s : Bytes) → view d1 k ≡ some s
          → (view d k ≡ some s)
            ⊎ (Ok (unmarshal_binary s) × (m : Bytes) × (w : V) × Fits m w × (key m w ≡ k))
      value_first d d1 fits (o, views, _, reads) k s e = elim (Bool-cases (bytes_eq (key n v) k)) [
        | inl here ↦ inr (
          reads s (sym (rw here at (views k)) ∙ e),
          n,
          v,
          fits,
          (bytes_eq_iff (key n v) k).0 here,
        )
        | inr elsewhere ↦ inl (sym (rw elsewhere at (views k)) ∙ e)
      ]

    pub flush_entries-Flushed :
        (entries : Entries V Bitmap) (d : Db)
        → IsOverlay eq eq_iff Fits entries
        → (d' : Db) × (flush_entries entries d ≡ ok d') × Flushed entries d d'
    unfolding flush_entries find stored
    flush_entries-Flushed [] d h =
        (d, refl, record { has = λ m w i f. refl; others = λ k n. refl; values = λ k s e. inl e })
    flush_entries-Flushed ((n, v, b) ∷ rest) d h =
        let (d1, written, wrote) = write_bitmap-Wrote d (key n v) b in
        let (d', flushed, after) = flush_entries-Flushed rest d1 h.2 in
        (
          d',
          rw written flushed,
          record {
            has = λ m w i f. after.has m w i f ∙ has_first n v b rest d d1 h wrote m w i f;
            others = λ k out.
                after.others k out
                ∙ Wrote-other d d1 (key n v) b wrote k (key_differs (key n v) k (out n v h.0));
            values = λ k s e. elim (after.values k s e) [
              | inr later ↦ inr later
              | inl e1 ↦ value_first n v b d d1 h.0 wrote k s e1
            ];
          },
        )
