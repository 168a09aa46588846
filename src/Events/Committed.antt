-- ===== src/Events/Committed.antt =====
-- The end of a batch: the last block, the flush and the commit.
use pebble_bitmap_store_note.Prelude.{
  ℕ, ◌≡◌, ◌<◌, sym, ap, ◌∙◌, some, ◌∷◌, Bytes, arith, bytes_eq, bytes_eq_iff, bytes_eq_refl,
  Bool-cases, inl, inr, Result, ok, if◌then◌else◌,
}
use pebble_bitmap_store_note.Packages.PebbleDb.{get-view}
use pebble_bitmap_store_note.Encoding.Integers.{put_uint64}
use pebble_bitmap_store_note.Encoding.Keys.{
  prefix_last_block, prefix_string_bitmap, prefix_numeric_bitmap, last_block_key,
}
use pebble_bitmap_store_note.Index.Attributes.{Attributes, Indexes}
use pebble_bitmap_store_note.Index.Bitmaps.Stored.{stored, decoded}
use pebble_bitmap_store_note.Store.{get_last_block, upsert_last_block}
use pebble_bitmap_store_note.Cache.{new_bitmap_cache, flush}
use pebble_bitmap_store_note.Payloads.Consistent.{eight_bytes-put_uint64}
use pebble_bitmap_store_note.Events.Operations.{Environment, Db, Cache}
use pebble_bitmap_store_note.Events.Tracks.{Runs}
use pebble_bitmap_store_note.Events.Written.{kept-Readable, kept-Holds}
use pebble_bitmap_store_note.Events.Flushed.{first, kept-Tracks}
use pebble_bitmap_store_note.Events.Flushes.{flush-Tracks}
use pebble_bitmap_store_note.Events.Contents.{Contents, Holding}

module _ (env : Environment) (runs : Runs env) where
  open env use {pebble, roaring}

  -- `Commit` of an indexed batch over the database leaves what the batch reads.
  abbrev pub Commits : (Db env → Result (Db env)) → Type 0
  Commits commit =
      (d : Db env)
      → (d' : Db env) × (commit d ≡ ok d') × ((k : Bytes) → pebble.view d' k ≡ pebble.view d k)

  -- The same values at every key.
  module _ (d d' : Db env) (same : (k : Bytes) → pebble.view d' k ≡ pebble.view d k) where
    same-Holding : (s : Contents) (c : Cache env) → Holding env runs s d c → Holding env runs s d' c
    same-Holding s c t =
        kept-Tracks env runs d d' (λ k _ _ _. same k) s.next s.keys s.rows c c s.attributes t
          (kept-Readable env d d' (λ k. same _) (λ k. same _) t.readable) t.cached
          (kept-Holds env d d' (λ k. same _) (λ k. same _) c s.attributes t.holds)

    same-Indexes : (a : Attributes) → Indexes pebble roaring d a → Indexes pebble roaring d' a
    unfolding stored
    same-Indexes a h = record {
      string_fits = h.string_fits;
      string_stored =
          λ i n v fits. ap (λ o. decoded pebble roaring o i) (same _) ∙ h.string_stored i n v fits;
      string_keys = λ k s e. h.string_keys k s (sym (same k) ∙ e);
      number_fits = h.number_fits;
      number_stored =
          λ i n v fits. ap (λ o. decoded pebble roaring o i) (same _) ∙ h.number_stored i n v fits;
      number_keys = λ k s e. h.number_keys k s (sym (same k) ∙ e);
    }

  -- The write of the last block.
  module _ (d d' : Db env) (number : ℕ) (done : upsert_last_block pebble d number ≡ ok d') where
    after_write :
        (k : Bytes)
        → pebble.view d' k
          ≡ (if bytes_eq last_block_key k then some (put_uint64 number) else pebble.view d k)
    unfolding upsert_last_block
    after_write k = pebble.set_view d d' last_block_key (put_uint64 number) k done

    other_keys :
        (k : Bytes) → (first k ≡ prefix_last_block → ⊥) → pebble.view d' k ≡ pebble.view d k
    unfolding first last_block_key
    other_keys k out = elim (Bool-cases (bytes_eq last_block_key k)) [
      | inl e ↦ absurd (out (ap first (sym ((bytes_eq_iff last_block_key k).0 e))))
      | inr e ↦ rw e at (after_write k)
    ]

    last_block-Holding :
        (s : Contents) (c : Cache env) → Holding env runs s d c → Holding env runs s d' c
    unfolding first
    last_block-Holding s c t =
        let strings : (k : Bytes)
            → pebble.view d' (prefix_string_bitmap ∷ k) ≡ pebble.view d (prefix_string_bitmap ∷ k) =
          λ k. other_keys _ (λ e. omega arith) in
        let numbers : (k : Bytes)
            → pebble.view d' (prefix_numeric_bitmap ∷ k)
              ≡ pebble.view d (prefix_numeric_bitmap ∷ k) =
          λ k. other_keys _ (λ e. omega arith) in
        kept-Tracks env runs d d' (λ k out _ _. other_keys k out) s.next s.keys s.rows c c
          s.attributes t (kept-Readable env d d' strings numbers t.readable) t.cached
          (kept-Holds env d d' strings numbers c s.attributes t.holds)

    last_block-view : pebble.view d' last_block_key ≡ some (put_uint64 number)
    last_block-view = rw (bytes_eq_refl last_block_key) at (after_write last_block_key)

  get_last_block-view :
      (d : Db env) (number : ℕ)
      → number < 18446744073709551616
      → pebble.view d last_block_key ≡ some (put_uint64 number)
      → get_last_block pebble d ≡ ok number
  unfolding get_last_block
  get_last_block-view d number small e =
      rw (get-view pebble runs.reliable d last_block_key, e) (eight_bytes-put_uint64 number small)

  -- The end of a batch that holds the contents.
  abbrev pub Committed : Db env → Contents → ℕ → Type 0
  Committed d s number =
      Holding env runs s d (new_bitmap_cache pebble roaring)
      × Indexes pebble roaring d s.attributes
      × (get_last_block pebble d ≡ ok number)

  pub end-Committed :
      (commit : Db env → Result (Db env)) (s : Contents) (d : Db env) (c : Cache env) (number : ℕ)
      → Commits commit
      → Holding env runs s d c
      → number < 18446744073709551616
      → (d1 d2 d3 : Db env) × (upsert_last_block pebble d number ≡ ok d1)
        × (flush pebble roaring c d1 ≡ ok d2)
        × (commit d2 ≡ ok d3)
        × Committed d3 s number
  unfolding upsert_last_block first last_block_key
  end-Committed commit s d c number commits t small =
      let (d1, e1) = runs.reliable.sets d last_block_key (put_uint64 number) in
      let t1 : Holding env runs s d1 c = last_block-Holding d d1 number e1 s c t in
      let (d2, e2, t2, indexes, keeps) =
        flush-Tracks env runs s.next s.keys s.rows d1 c s.attributes t1 in
      let (d3, e3, same) = commits d2 in
      (
        d1,
        d2,
        d3,
        e1,
        e2,
        e3,
        (
          same-Holding d2 d3 same s (new_bitmap_cache pebble roaring) t2,
          same-Indexes d2 d3 same s.attributes indexes,
          get_last_block-view d3 number small (
              same last_block_key
              ∙ keeps last_block_key (λ e. omega arith) (λ e. omega arith)
              ∙ last_block-view d d1 number e1),
        ),
      )
