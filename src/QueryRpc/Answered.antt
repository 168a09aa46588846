-- ===== src/QueryRpc/Answered.antt =====
-- What `QueryEntities` returns on a database that indexes the attributes of entities.
use pebble_bitmap_store_note.Prelude.{
  ℕ, ◌≡◌, ◌≤◌, ◌<◌, ◌↔◌, refl, sym, ap, ◌∙◌, subst, Bool, true, false, ◌&&◌, leb, arith, ltb,
  and_true, Option, none, some, List, [], ◌∷◌, ◌++◌, In, All, map, Bytes, length, Result, ok, ◌>>=◌,
}
use pebble_bitmap_store_note.Packages.PebbleDb.{Pebble}
use pebble_bitmap_store_note.Packages.Roaring64.{Roaring}
use pebble_bitmap_store_note.Packages.Json.{Json}
use pebble_bitmap_store_note.Encoding.Keys.{payload_key}
use pebble_bitmap_store_note.Query.Language.{TopLevel, Expression, filtered}
use pebble_bitmap_store_note.Query.Ast.{AstOr}
use pebble_bitmap_store_note.Query.Meaning.{Leaves}
use pebble_bitmap_store_note.Query.Normalize.{normalize}
use pebble_bitmap_store_note.Query.Normalize.Total.{TypedLeaf}
use pebble_bitmap_store_note.Index.Attributes.{Attributes, Indexes}
use pebble_bitmap_store_note.Evaluate.Asks.{asks, IsPlain}
use pebble_bitmap_store_note.Store.{get_last_block}
use pebble_bitmap_store_note.Evaluate.Terms.{IsReadable}
use pebble_bitmap_store_note.Evaluate.Total.Scans.{Serves}
use pebble_bitmap_store_note.Evaluate.Select.{evaluate_ast-selects}
use pebble_bitmap_store_note.Payloads.Record.{Fields, decode_payload_value}
use pebble_bitmap_store_note.Payloads.Operations.{PayloadRow}
use pebble_bitmap_store_note.QueryRpc.Options.{
  Options, IncludeData, get_at_block, get_results_per_page, get_include_data, get_cursor,
}
use pebble_bitmap_store_note.QueryRpc.Query.{Iterable, wait, query_entities}
use pebble_bitmap_store_note.QueryRpc.Descending.{IsDescending}
use pebble_bitmap_store_note.QueryRpc.Filled.{Cut}
use pebble_bitmap_store_note.QueryRpc.Paging.{Serving, masked, contains-masked, page-bounded}

abbrev pub below_cursor : Option ℕ → ℕ → Bool
below_cursor none i = true
below_cursor (some c) i = ltb i c

module _ (p : Pebble) (r : Roaring) (iterable : Iterable r) {S N : Type 0} (strings : Json S)
    (numbers : Json N)
    (sort_slice : (PayloadRow S N → PayloadRow S N → Bool)
      → List (PayloadRow S N)
      → List (PayloadRow S N))
    (render : IncludeData → PayloadRow S N → Result Bytes) (to_lower : Bytes → Bytes)
    (path_match : Bytes → Bytes → Bool) (sort_descending : List ℕ → List ℕ)
    (parse : Bytes → Result TopLevel) (decode_uint64 : Bytes → Result ℕ) (encode_uint64 : ℕ → Bytes)
    (databases : List p.Db) (snap : p.Db) (query_str : Bytes) (options : Option Options) where
  -- A sort leaves rows that are in order; each selected identifier has its record and its JSON.
  pub record Answering (selected : ℕ → Bool) (fields_at : ℕ → Fields S N) (json_at : ℕ → Bytes)
      : Type 0 where
    pub sorts :
        (rows : List (PayloadRow S N))
        → IsDescending (map (λ (row : PayloadRow S N). row.id) rows)
        → sort_slice (λ i j. ltb j.id i.id) rows ≡ rows
    pub reads :
        (i : ℕ)
        → selected i ≡ true
        → (s : Bytes) × (p.get snap (payload_key i) ≡ ok (some s))
          × (decode_payload_value strings numbers s ≡ ok (fields_at i))
    pub renders :
        (i : ℕ)
        → selected i ≡ true
        → render (get_include_data options) (record { id = i; fields = fields_at i })
          ≡ ok (json_at i)

  members :
      (b : r.Bitmap) (cursor : Option ℕ) (i : ℕ)
      → r.contains (masked p r iterable strings numbers sort_slice render snap options b cursor) i
        ≡ (r.contains b i && below_cursor cursor i)
  members b none i = sym (and_true (r.contains b i))
  members b (some c) i =
      contains-masked p r iterable strings numbers sort_slice render snap options b c i

  -- The database has not reached the block yet.
  abbrev pub IsBehind : ℕ → p.Db → Type 0
  IsBehind at_block db = (n : ℕ) × (get_last_block p db ≡ ok n) × (n < at_block)

  -- One poll, whose database has the last block `n`.
  polled :
      (at_block n : ℕ) (r : Result ℕ) (others : Result (Unit {0})) (t : Bool)
      → r ≡ ok n
      → leb at_block n ≡ t
      → (r >>= λ last_block. elim (leb at_block last_block) as (λ _. Result (Unit {0})) [
        | true ↦ ok tt
        | false ↦ others
      ])
        ≡ elim t [ true ↦ ok tt | false ↦ others ]
  polled at_block n r others t h k =
      ap
        (λ q. q >>= λ last_block. elim (leb at_block last_block) as (λ _. Result (Unit {0})) [
          | true ↦ ok tt
          | false ↦ others
        ])
        h
      ∙ ap (λ u. elim u as (λ _. Result (Unit {0})) [ true ↦ ok tt | false ↦ others ]) k

  -- The wait goes on while the databases are behind, and ends at the first that is not.
  wait-reached :
      (at_block : ℕ) (behind later : List p.Db) (current : p.Db) (last_block : ℕ)
      → All (IsBehind at_block) behind
      → get_last_block p current ≡ ok last_block
      → at_block ≤ last_block
      → wait p r iterable strings numbers sort_slice render at_block (behind ++ current ∷ later)
        ≡ ok tt
  unfolding wait
  wait-reached at_block [] later current last_block w at h =
      let reached : leb at_block last_block ≡ true = ground arith in
      polled at_block last_block (get_last_block p current) _ true at reached
  wait-reached at_block (db ∷ behind) later current last_block w at h =
      let (n, read, low) = w.0 in
      let below : leb at_block n ≡ false = ground arith in
      polled at_block n (get_last_block p db) _ false read below
      ∙ wait-reached at_block behind later current last_block w.1 at h

  -- While the snapshot serves every read and indexes the attributes of entities, each entity that
  -- the query asks for has its record and its JSON, and the sort leaves rows that are in order, a
  -- query is answered if a poll within the time sees a database that has reached the block, the
  -- polls before it having seen ones behind it, if the query string parses to a well-typed query
  -- whose normal form has readable terms and whose lists on $key, $owner and $creator are of
  -- strings and, negations counted, have no `not`, if the cursor decodes and if a page has room
  -- for a result. The results are those of the entities below the cursor that have what the query
  -- asks, from the highest identifier on, at most as many as the options ask for and at most 200,
  -- and the response has a cursor, the last of them, unless they are all. A comparison and its
  -- negation both ask for the attribute; literals for those three names count in lower case.
  pub query_entities-selects :
      (a : Attributes) (e : Expression) (o : AstOr) (cursor : Option ℕ) (fields_at : ℕ → Fields S N)
      (json_at : ℕ → Bytes) (behind later : List p.Db) (current : p.Db) (last_block : ℕ)
      → Indexes p r snap a
      → Serves p r snap
      → All (IsBehind (get_at_block options)) behind
      → databases ≡ behind ++ current ∷ later
      → get_last_block p current ≡ ok last_block
      → get_at_block options ≤ last_block
      → parse query_str ≡ ok (filtered e)
      → Leaves TypedLeaf e
      → IsPlain true e
      → normalize to_lower (filtered e) ≡ ok (some o)
      → All (All IsReadable) o
      → get_cursor decode_uint64 options ≡ ok cursor
      → 0 < get_results_per_page options
      → Answering (λ i. asks to_lower path_match a i true e) fields_at json_at
      → (taken rest : List ℕ) × (next : Option ℕ) × (query_entities p r iterable strings numbers
            sort_slice render to_lower path_match sort_descending parse decode_uint64 encode_uint64
            databases snap query_str options
          ≡ ok (record {
            results = map json_at taken;
            block_number = 0;
            cursor = elim next as (λ _. Option Bytes) [
              | none ↦ none
              | some id ↦ some (encode_uint64 id)
            ];
          }))
        × IsDescending (taken ++ rest)
        × ((i : ℕ)
            → In i (taken ++ rest)
              ↔ ((asks to_lower path_match a i true e && below_cursor cursor i) ≡ true))
        × Cut taken rest next
        × (length taken ≤ get_results_per_page options)
        × (get_results_per_page options ≤ 200)
  unfolding query_entities
  query_entities-selects a e o cursor fields_at json_at behind later current last_block x serves
        waited polls at reached parsed typed plain normal readable masks positive answering =
      let (b, got, selects) =
        evaluate_ast-selects p r to_lower path_match sort_descending snap a x serves e o typed plain
          normal readable in
      let serving : Serving p r iterable strings numbers sort_slice render snap options b fields_at
          json_at =
        record {
          sorts = answering.sorts;
          reads = λ i h. answering.reads i (sym (selects i) ∙ h);
          renders = λ i h. answering.renders i (sym (selects i) ∙ h);
        } in
      let (taken, rest, next, paged, split, last, bound, limit) =
        page-bounded p r iterable strings numbers sort_slice render snap options b fields_at json_at
          serving positive cursor in
      let m : r.Bitmap =
        masked p r iterable strings numbers sort_slice render snap options b cursor in
      let in_page : (i : ℕ)
          → r.contains m i ≡ (asks to_lower path_match a i true e && below_cursor cursor i) =
        λ i. members b cursor i ∙ ap (λ t. t && below_cursor cursor i) (selects i) in
      let ready : wait p r iterable strings numbers sort_slice render (get_at_block options)
            databases
          ≡ ok tt =
        rw polls
          (wait-reached (get_at_block options) behind later current last_block waited at reached) in
      (
        taken,
        rest,
        next,
        rw (ready, parsed, normal, got, masks, paged) refl,
        subst IsDescending (sym split) (iterable.reverse-IsDescending m),
        λ i. (
          λ there. sym (in_page i) ∙ (iterable.reverse_In m i).0 (subst (λ l. In i l) split there),
          λ h. subst (λ l. In i l) (sym split) ((iterable.reverse_In m i).1 (in_page i ∙ h)),
        ),
        last,
        bound,
        limit,
      )
