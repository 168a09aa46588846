-- ===== src/QueryRpc/Filled.antt =====
-- What one run of the loop that fills a page yields.
use pebble_bitmap_store_note.Prelude.{
  ℕ, zero, suc, ◌+◌, ◌-◌, ◌≡◌, ◌≤◌, ◌<◌, ◌⊎◌, inl, inr, refl, sym, ap, ◌∙◌, subst, Bool, false,
  ◌||◌, ltb, leb, Bool-cases, Option, none, some, List, [], ◌∷◌, ◌++◌, In, map, Bytes, length,
  length-append, Result, ok, arith,
}
use mathlib.Core.List.{append_assoc, append-nil}
use pebble_bitmap_store_note.Encoding.Integers.{u64}
use pebble_bitmap_store_note.QueryRpc.Pages.{
  Fill, more, full, next_ids, next_batch_size, row_loop, fill_loop, max_result_bytes,
}

next_ids-splits :
    (max : ℕ) (it : List ℕ)
    → ((next_ids max it).0 ++ (next_ids max it).1 ≡ it) × (length (next_ids max it).0 ≤ max)
unfolding next_ids
next_ids-splits zero it = (refl, omega arith)
next_ids-splits (suc max) [] = (refl, omega arith)
next_ids-splits (suc max) (i ∷ it) =
    let (e, short) = next_ids-splits max it in (ap (λ l. i ∷ l) e, omega arith)

-- A page without a cursor leaves nothing; its cursor is the last identifier of the page.
abbrev pub Cut : List ℕ → List ℕ → Option ℕ → Type 0
Cut taken rest none = rest ≡ []
Cut taken rest (some c) = (before : List ℕ) × (taken ≡ before ++ (c ∷ []))

next_batch_size-positive :
    (max_results count : ℕ)
    → count < max_results
    → max_results < 18446744073709551616
    → 0 < next_batch_size max_results count
unfolding next_batch_size
next_batch_size-positive max_results count h k = ground (arith, u64_open max_results count h k)
  where
    u64_open :
        (m n : ℕ) → n < m → m < 18446744073709551616 → 0 < u64 (m + 18446744073709551616 - u64 n)
    u64_open m n h k = omega arith

next_ids-first :
    (max i : ℕ) (it : List ℕ) → 0 < max → (ids : List ℕ) × ((next_ids max (i ∷ it)).0 ≡ i ∷ ids)
unfolding next_ids
next_ids-first zero i it h = absurd (omega arith)
next_ids-first (suc max) i it h = (_, refl)

not_full : (t : Bool) (m n : ℕ) → (t || leb m n) ≡ false → n < m
not_full t m n h = ground (arith)

pub map-append :
    {A B : Type 0} (f : A → B) (xs ys : List A) → map f (xs ++ ys) ≡ map f xs ++ map f ys
map-append f [] ys = refl
map-append f (x ∷ xs) ys = ap (λ l. f x ∷ l) (map-append f xs ys)

length-map : {A B : Type 0} (f : A → B) (xs : List A) → length (map f xs) ≡ length xs
length-map f [] = refl
length-map f (x ∷ xs) = ap suc (length-map f xs)

pub In-append_left : (xs ys : List ℕ) (i : ℕ) → In i xs → In i (xs ++ ys)
In-append_left [] ys i m = absurd m
In-append_left (x ∷ xs) ys i (inl e) = inl e
In-append_left (x ∷ xs) ys i (inr m) = inr (In-append_left xs ys i m)

pub In-append_right : (xs ys : List ℕ) (i : ℕ) → In i ys → In i (xs ++ ys)
In-append_right [] ys i m = m
In-append_right (x ∷ xs) ys i m = inr (In-append_right xs ys i m)

-- A page after what was there before.
later :
    (ids taken left : List ℕ) (cursor : Option ℕ)
    → Cut taken left cursor
    → Cut (ids ++ taken) left cursor
later ids taken left none h = h
later ids taken left (some c) (before, e) =
    (ids ++ before, ap (λ l. ids ++ l) e ∙ sym (append_assoc ids before (c ∷ [])))

module _ {Row : Type 0} (id_of : Row → ℕ) (render : Row → Result Bytes)
    (retrieve : List ℕ → Result (List Row)) (max_results : ℕ) (row_at : ℕ → Row)
    (json_at : ℕ → Bytes) (in_range : max_results < 18446744073709551616)
    (own_id : (i : ℕ) → id_of (row_at i) ≡ i) where
  -- Each row of the identifiers has its JSON, and their parts are read as their rows.
  pub record Shows (it : List ℕ) : Type 0 where
    pub retrieves :
        (before ids rest : List ℕ)
        → before ++ (ids ++ rest) ≡ it
        → retrieve ids ≡ ok (map row_at ids)
    pub renders : (i : ℕ) → In i it → render (row_at i) ≡ ok (json_at i)

  -- Where a batch of rows leads to.
  abbrev Rows : List ℕ → List Bytes → Result Fill → Type 0
  Rows ids data_so_far result =
      ((total : ℕ) × (result ≡ ok (more (data_so_far ++ map json_at ids) total))
        × (length data_so_far + length ids < max_results))
      ⊎ ((before left : List ℕ) × (last : ℕ) × (ids ≡ before ++ (last ∷ left))
          × (result ≡ ok (full (data_so_far ++ map json_at (before ++ (last ∷ []))) last))
          × (length data_so_far + length before < max_results))

  row_loop-Rows :
      (ids : List ℕ) (data_so_far : List Bytes) (total : ℕ)
      → length data_so_far < max_results
      → ((i : ℕ) → In i ids → render (row_at i) ≡ ok (json_at i))
      → Rows ids data_so_far
          (row_loop id_of render retrieve max_results (map row_at ids) data_so_far total)
  unfolding row_loop
  row_loop-Rows [] data_so_far total small shows =
      inl (total, ap (λ l. ok (more l total)) (sym (append-nil data_so_far)), omega arith)
  row_loop-Rows (i ∷ ids) data_so_far total small shows =
      let data_now : List Bytes = data_so_far ++ (json_at i ∷ []) in
      let total_now : ℕ = u64 (total + length (json_at i)) in
      let size : length data_now ≡ length data_so_far + 1 = length-append data_so_far _ in
      let joined : (l : List Bytes) → data_now ++ l ≡ data_so_far ++ (json_at i ∷ l) =
        λ l. append_assoc data_so_far (json_at i ∷ []) l in
      elim (Bool-cases (ltb max_result_bytes total_now || leb max_results (length data_now))) [
        | inl stop ↦
            rw (shows i (inl refl), own_id i, stop) (inr ([], ids, i, refl, refl, omega arith))
        | inr go ↦
            rw (shows i (inl refl), own_id i, go)
              (elim (row_loop-Rows ids data_now total_now
                (not_full _ max_results (length data_now) go) (λ j m. shows j (inr m))) [
                  | inl (t, e, h) ↦ inl (t, e ∙ ap (λ l. ok (more l t)) (joined _), omega arith)
                  | inr (before, left, last, split, e, h) ↦ inr (
                    i ∷ before,
                    left,
                    last,
                    ap (λ l. i ∷ l) split,
                    e ∙ ap (λ l. ok (full l last)) (joined _),
                    omega arith,
                  )
                ])
      ]

  -- What the loop yields: a first part of the identifiers, with its cursor, of at most
  -- `max_results` with what is there.
  abbrev pub Fills : List ℕ → List Bytes → Result (List Bytes × Option ℕ) → Type 0
  Fills it data_so_far result =
      (taken rest : List ℕ) × (cursor : Option ℕ) × (result
        ≡ ok (data_so_far ++ map json_at taken, cursor))
      × (taken ++ rest ≡ it)
      × Cut taken rest cursor
      × (length data_so_far + length taken ≤ max_results)

  Shows-rest : (it ids rest : List ℕ) → ids ++ rest ≡ it → Shows it → Shows rest
  Shows-rest it ids rest e shows = record {
    retrieves = λ before l after at.
        shows.retrieves (ids ++ before) l after
          (append_assoc ids before (l ++ after) ∙ ap (λ x. ids ++ x) at ∙ e);
    renders = λ i m. shows.renders i (subst (λ l. In i l) e (In-append_right ids rest i m));
  }

  pub fill_loop-Fills :
      (fuel : ℕ) (it : List ℕ) (data_so_far : List Bytes) (total : ℕ)
      → length it ≤ fuel
      → length data_so_far < max_results
      → Shows it
      → Fills it data_so_far (fill_loop id_of render retrieve max_results fuel it data_so_far total)
  unfolding fill_loop
  fill_loop-Fills fuel [] data_so_far total enough small shows =
      ([], [], none, ap (λ l. ok (l, none)) (sym (append-nil data_so_far)), refl, refl, omega arith)
  fill_loop-Fills zero (i ∷ it) data_so_far total enough small shows = absurd (omega arith)
  fill_loop-Fills (suc fuel) (i ∷ it) data_so_far total enough small shows =
      let size : ℕ = next_batch_size max_results (length data_so_far) in
      let ids : List ℕ = (next_ids size (i ∷ it)).0 in
      let rest : List ℕ = (next_ids size (i ∷ it)).1 in
      let (split, short) = next_ids-splits size (i ∷ it) in
      let (others, first) =
        next_ids-first size i it
          (next_batch_size-positive max_results (length data_so_far) small in_range) in
      let read : retrieve ids ≡ ok (map row_at ids) = shows.retrieves [] ids rest split in
      let shorter : length rest ≤ fuel =
        omega
          (arith, ap length (ap (λ l. l ++ rest) (sym first) ∙ split), length-append others rest) in
      elim (row_loop-Rows ids data_so_far total small
        (λ j m. shows.renders j (subst (λ l. In j l) split (In-append_left ids rest j m)))) [
          | inl (t, e, h) ↦
              let data_now : List Bytes = data_so_far ++ map json_at ids in
              let count : length data_now ≡ length data_so_far + length ids =
                length-append data_so_far (map json_at ids)
                ∙ ap (λ n. length data_so_far + n) (length-map json_at ids) in
              let (taken, left, cursor, e', split', last, bound) =
                fill_loop-Fills fuel rest data_now t shorter (omega arith)
                  (Shows-rest (i ∷ it) ids rest split shows) in
              rw (read, e)
                (
                  ids ++ taken,
                  left,
                  cursor,
                  e'
                      ∙ ap (λ l. ok (l, cursor))
                          (append_assoc data_so_far (map json_at ids) (map json_at taken)
                            ∙ ap (λ l. data_so_far ++ l) (sym (map-append json_at ids taken))),
                  append_assoc ids taken left ∙ ap (λ l. ids ++ l) split' ∙ split,
                  later ids taken left cursor last,
                  omega (arith, length-append ids taken),
                )
          | inr (before, left, last, cut, e, h) ↦
              rw (read, e)
                (
                  before ++ (last ∷ []),
                  left ++ rest,
                  some last,
                  refl,
                  append_assoc before (last ∷ []) (left ++ rest)
                      ∙ sym (append_assoc before (last ∷ left) rest)
                      ∙ ap (λ l. l ++ rest) (sym cut)
                      ∙ split,
                  (before, refl),
                  omega (arith, length-append before (last ∷ [])),
                )
        ]
