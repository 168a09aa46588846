-- ===== src/QueryRpc/Paging.antt =====
-- The pages that a client gets which follows the cursors.
use pebble_bitmap_store_note.Prelude.{
  ℕ, zero, suc, ◌+◌, ◌≡◌, ◌≤◌, ◌<◌, inl, inr, refl, sym, ap, ◌∙◌, subst, Bool, true, ◌&&◌, ◌||◌,
  ltb, leb, ltb→lt, Option, none, some, List, [], ◌∷◌, ◌++◌, In, map, Bytes, length, length-append,
  Result, ok, err, out_of_fuel, ◌>>=◌, arith,
}
use mathlib.Core.List.{append_assoc, append-nil}
use pebble_bitmap_store_note.Packages.PebbleDb.{Pebble}
use pebble_bitmap_store_note.Packages.Roaring64.{Roaring}
use pebble_bitmap_store_note.Packages.Json.{Json}
use pebble_bitmap_store_note.Encoding.Keys.{payload_key}
use pebble_bitmap_store_note.Payloads.Record.{Fields, decode_payload_value}
use pebble_bitmap_store_note.Payloads.Operations.{PayloadRow, payload_rows, retrieve_payloads}
use pebble_bitmap_store_note.QueryRpc.Options.{
  Options, IncludeData, get_results_per_page, get_results_per_page-limit, get_include_data,
}
use pebble_bitmap_store_note.QueryRpc.Query.{Iterable, page}
use pebble_bitmap_store_note.QueryRpc.Descending.{
  IsDescending, IsDescending-ext, append_right-IsDescending, append_left-IsDescending, behind,
}
use pebble_bitmap_store_note.QueryRpc.Filled.{
  Cut, Shows, Fills, fill_loop-Fills, map-append, In-append_left, In-append_right,
}

module _ (p : Pebble) (r : Roaring) (iterable : Iterable r) {S N : Type 0} (strings : Json S)
    (numbers : Json N)
    (sort_slice : (PayloadRow S N → PayloadRow S N → Bool)
      → List (PayloadRow S N)
      → List (PayloadRow S N))
    (render : IncludeData → PayloadRow S N → Result Bytes) (snap : p.Db) (options : Option Options)
    (bitmap : r.Bitmap) where
  open r use {contains, new, and, contains-and, contains-new}
  open iterable use {add_range, reverse, contains-add_range, reverse_In, reverse-IsDescending}

  -- The pages from a cursor on, one after the other, with fuel.
  unfoldable pub pages_from : ℕ → Option ℕ → Result (List Bytes)
  pages_from zero cursor = err out_of_fuel
  pages_from (suc fuel) cursor = do
    (results, next) ←
        page p r iterable strings numbers sort_slice render snap options (some bitmap) cursor
    elim next [
      | none ↦ ok results
      | some c ↦ do rest ← pages_from fuel (some c); ok (results ++ rest)
    ]

  -- The bitmap below a cursor.
  abbrev pub masked : Option ℕ → r.Bitmap
  masked none = bitmap
  masked (some c) = and bitmap (add_range new 0 c)

  pub contains-masked : (c i : ℕ) → contains (masked (some c)) i ≡ (contains bitmap i && ltb i c)
  contains-masked c i =
      contains-and bitmap (add_range new 0 c) i
      ∙ ap (λ t. contains bitmap i && t)
          (contains-add_range new 0 c i
            ∙ ap (λ t. (leb 0 i && ltb i c) || t) (contains-new i)
            ∙ ground arith)

  -- A sort leaves rows that are in order; each identifier has its record, and that its JSON.
  pub record Serving (fields_at : ℕ → Fields S N) (json_at : ℕ → Bytes) : Type 0 where
    pub sorts :
        (rows : List (PayloadRow S N))
        → IsDescending (map (λ (row : PayloadRow S N). row.id) rows)
        → sort_slice (λ i j. ltb j.id i.id) rows ≡ rows
    pub reads :
        (i : ℕ)
        → contains bitmap i ≡ true
        → (s : Bytes) × (p.get snap (payload_key i) ≡ ok (some s))
          × (decode_payload_value strings numbers s ≡ ok (fields_at i))
    pub renders :
        (i : ℕ)
        → contains bitmap i ≡ true
        → render (get_include_data options) (record { id = i; fields = fields_at i })
          ≡ ok (json_at i)

  module _ (fields_at : ℕ → Fields S N) (json_at : ℕ → Bytes) (serving : Serving fields_at json_at)
      (positive : 0 < get_results_per_page options) where
    in_range : get_results_per_page options < 18446744073709551616
    in_range = let limit = get_results_per_page-limit options in omega arith

    abbrev pub row_at : ℕ → PayloadRow S N
    row_at i = record { id = i; fields = fields_at i }

    ids_of_rows : (ids : List ℕ) → map (λ (row : PayloadRow S N). row.id) (map row_at ids) ≡ ids
    ids_of_rows [] = refl
    ids_of_rows (i ∷ ids) = ap (λ l. i ∷ l) (ids_of_rows ids)

    payload_rows-all :
        (ids : List ℕ)
        → ((i : ℕ) → In i ids → contains bitmap i ≡ true)
        → payload_rows p strings numbers snap ids ≡ ok (map row_at ids)
    unfolding payload_rows
    payload_rows-all [] members = refl
    payload_rows-all (i ∷ ids) members =
        let (s, got, decoded) = serving.reads i (members i (inl refl)) in
        rw (got, decoded, payload_rows-all ids (λ j m. members j (inr m))) refl

    retrieve_payloads-all :
        (ids : List ℕ)
        → IsDescending ids
        → ((i : ℕ) → In i ids → contains bitmap i ≡ true)
        → retrieve_payloads p strings numbers sort_slice snap ids ≡ ok (map row_at ids)
    unfolding retrieve_payloads
    retrieve_payloads-all ids sorted members =
        rw (payload_rows-all ids members) (
          ap ok
            (serving.sorts (map row_at ids) (subst IsDescending (sym (ids_of_rows ids)) sorted)))

    masked-member :
        (cursor : Option ℕ) (i : ℕ) → In i (reverse (masked cursor)) → contains bitmap i ≡ true
    masked-member none i m = (reverse_In bitmap i).0 m
    masked-member (some c) i m =
        let both : (contains bitmap i && ltb i c) ≡ true =
          sym (contains-masked c i) ∙ (reverse_In (masked (some c)) i).0 m in
        ground arith

    masked-Shows :
        (cursor : Option ℕ)
        → Shows
            (λ (row : PayloadRow S N). row.id)
            (render (get_include_data options))
            (retrieve_payloads p strings numbers sort_slice snap)
            (get_results_per_page options)
            row_at
            json_at
            in_range
            (λ i. refl)
            (reverse (masked cursor))
    masked-Shows cursor = record {
      retrieves = λ before ids rest e.
          retrieve_payloads-all ids
            (append_left-IsDescending ids rest (
              append_right-IsDescending before (ids ++ rest)
                (subst IsDescending (sym e) (reverse-IsDescending (masked cursor)))))
            (λ i m. masked-member cursor i (
              subst (λ l. In i l) e
                (In-append_right before (ids ++ rest) i (In-append_left ids rest i m))));
      renders = λ i m. serving.renders i (masked-member cursor i m);
    }

    -- One page.
    page-Fills :
        (cursor : Option ℕ)
        → Fills
            (λ (row : PayloadRow S N). row.id)
            (render (get_include_data options))
            (retrieve_payloads p strings numbers sort_slice snap)
            (get_results_per_page options)
            row_at
            json_at
            in_range
            (λ i. refl)
            (reverse (masked cursor))
            []
            (page p r iterable strings numbers sort_slice render snap options (some bitmap) cursor)
    unfolding page
    page-Fills none =
        fill_loop-Fills (λ (row : PayloadRow S N). row.id) (render (get_include_data options))
          (retrieve_payloads p strings numbers sort_slice snap) (get_results_per_page options)
          row_at json_at in_range (λ i. refl) _ (reverse bitmap) [] 0 (omega arith) positive
          (masked-Shows none)
    page-Fills (some c) =
        fill_loop-Fills (λ (row : PayloadRow S N). row.id) (render (get_include_data options))
          (retrieve_payloads p strings numbers sort_slice snap) (get_results_per_page options)
          row_at json_at in_range (λ i. refl) _ (reverse (masked (some c))) [] 0 (omega arith)
          positive (masked-Shows (some c))

    lower-member :
        (cursor : Option ℕ) (c i : ℕ)
        → In c (reverse (masked cursor))
        → contains bitmap i ≡ true
        → i < c
        → In i (reverse (masked cursor))
    lower-member none c i m h lt = (reverse_In bitmap i).1 h
    lower-member (some k) c i m h lt =
        let both : (contains bitmap c && ltb c k) ≡ true =
          sym (contains-masked k c) ∙ (reverse_In (masked (some k)) c).0 m in
        (reverse_In (masked (some k)) i).1 (contains-masked k i ∙ ground arith)

    -- The cursor of a page leaves what the page has not taken.
    next_masked :
        (cursor : Option ℕ) (before rest : List ℕ) (c : ℕ)
        → before ++ (c ∷ rest) ≡ reverse (masked cursor)
        → reverse (masked (some c)) ≡ rest
    next_masked cursor before rest c e =
        let sorted : IsDescending (before ++ (c ∷ rest)) =
          subst IsDescending (sym e) (reverse-IsDescending (masked cursor)) in
        let there : In c (reverse (masked cursor)) =
          subst (λ l. In c l) e (In-append_right before (c ∷ rest) c (inl refl)) in
        IsDescending-ext (reverse (masked (some c))) rest (reverse-IsDescending (masked (some c)))
          (append_right-IsDescending before (c ∷ rest) sorted).1
          (λ i. (
            λ m.
                let both : (contains bitmap i && ltb i c) ≡ true =
                  sym (contains-masked c i) ∙ (reverse_In (masked (some c)) i).0 m in
                let lt : i < c = ltb→lt i c (ground arith) in
                (behind before rest c i sorted).1 (
                  subst (λ l. In i l) (sym e) (lower-member cursor c i there (ground arith) lt),
                  lt,
                ),
            λ m.
                let (m', lt) = (behind before rest c i sorted).0 m in
                let member : contains bitmap i ≡ true =
                  masked-member cursor i (subst (λ l. In i l) e m') in
                (reverse_In (masked (some c)) i).1 (contains-masked c i ∙ ground arith),
          ))

    abbrev Page : Option ℕ → Result (List Bytes × Option ℕ) → Type 0
    Page cursor result =
        Fills (λ (row : PayloadRow S N). row.id) (render (get_include_data options))
          (retrieve_payloads p strings numbers sort_slice snap) (get_results_per_page options)
          row_at json_at in_range (λ i. refl) (reverse (masked cursor)) [] result

    pages_from-rest :
        (fuel : ℕ) (cursor : Option ℕ)
        → length (reverse (masked cursor)) < fuel
        → pages_from fuel cursor ≡ ok (map json_at (reverse (masked cursor)))
    unfolding pages_from
    pages_from-rest zero cursor enough = absurd (omega arith)
    pages_from-rest (suc fuel) cursor enough =
        from_page _ refl (page-Fills cursor) (λ c shorter. pages_from-rest fuel (some c) shorter)
      where
        from_page :
            (result : Result (List Bytes × Option ℕ))
            → page p r iterable strings numbers sort_slice render snap options (some bitmap) cursor
              ≡ result
            → Page cursor result
            → ((c : ℕ)
                → length (reverse (masked (some c))) < fuel
                → pages_from fuel (some c) ≡ ok (map json_at (reverse (masked (some c)))))
            → pages_from (suc fuel) cursor ≡ ok (map json_at (reverse (masked cursor)))
        from_page result is (taken, rest, none, e, split, last, bound) next =
            rw (is, e)
              (ap (λ l. ok (map json_at l))
                (sym (append-nil taken) ∙ ap (λ l. taken ++ l) (sym last) ∙ split))
        from_page result is (taken, rest, some c, e, split, (before, ends), bound) next =
            let all : before ++ (c ∷ rest) ≡ reverse (masked cursor) =
              sym (append_assoc before (c ∷ []) rest) ∙ ap (λ l. l ++ rest) (sym ends) ∙ split in
            let left : reverse (masked (some c)) ≡ rest = next_masked cursor before rest c all in
            let shorter : length (reverse (masked (some c))) < fuel =
              omega (arith, ap length left, ap length all, length-append before (c ∷ rest)) in
            rw (is, e, next c shorter)
              (ap ok (
                sym (map-append json_at taken (reverse (masked (some c))))
                ∙ ap (λ l. map json_at (taken ++ l)) left
                ∙ ap (map json_at) split))

    -- While the snapshot serves each identifier of the bitmap its record and the sort leaves rows
    -- that are in order, a client that follows the cursors, with at least one result for a page,
    -- gets the results of all the identifiers, from the highest to the lowest, each once.
    pub pages_from-all :
        pages_from (length (reverse bitmap) + 1) none ≡ ok (map json_at (reverse bitmap))
    pages_from-all = pages_from-rest (length (reverse bitmap) + 1) none (omega arith)

    -- While the snapshot serves each identifier of the bitmap its record and the sort leaves rows
    -- that are in order, a page with at least one result for a page succeeds and has the results of
    -- the next identifiers below its cursor, at most as many as the options ask for and at most 200; it has a
    -- cursor, the last of them, unless it has the rest.
    pub page-bounded :
        (cursor : Option ℕ)
        → (taken rest : List ℕ) × (next : Option ℕ) × (page p r iterable strings numbers sort_slice
              render snap options
              (some bitmap)
              cursor
            ≡ ok (map json_at taken, next))
          × (taken ++ rest ≡ reverse (masked cursor))
          × Cut taken rest next
          × (length taken ≤ get_results_per_page options)
          × (get_results_per_page options ≤ 200)
    page-bounded cursor =
        let (taken, rest, next, e, split, last, bound) = page-Fills cursor in
        (taken, rest, next, e, split, last, omega arith, get_results_per_page-limit options)
