-- ===== src/QueryRpc/Sample.antt =====
-- The reverse iterator and the ranges of bitmaps as lists, and an insertion sort.
use pebble_bitmap_store_note.Prelude.{
  ℕ, zero, suc, subst, ◌≡◌, ◌<◌, ◌↔◌, inl, inr, refl, sym, ap, ◌∙◌, Bool, true, false, ◌&&◌, ◌||◌,
  ◌==◌, ==_iff, ltb, leb, ltb→lt, Bool-cases, List, [], ◌∷◌, ◌++◌, map, In, All, any-In, In-any,
  any-append, arith, if◌then◌else◌,
}
use pebble_bitmap_store_note.Packages.InMemory.{list_bitmaps, has, keep, has-keep}
use pebble_bitmap_store_note.Prelude.{Option, none, some, Bytes, codes, Result, ok, >>=-eq-ok}
use pebble_bitmap_store_note.Maps.{GoMap, attributes_json}
use pebble_bitmap_store_note.Payloads.Record.{encode_payload_value, decode_payload_value}
use pebble_bitmap_store_note.Payloads.Record.RoundTrip.{decode-encode_payload_value}
use pebble_bitmap_store_note.Payloads.Operations.{PayloadRow}
use pebble_bitmap_store_note.Events.Sample.{sample_env}
use pebble_bitmap_store_note.Events.Sample.Entities.{created, created-IsEntity}
use pebble_bitmap_store_note.QueryRpc.Options.{Options, IncludeData}
use pebble_bitmap_store_note.QueryRpc.Entity.{to_payload}
use pebble_bitmap_store_note.QueryRpc.Descending.{IsDescending}
use pebble_bitmap_store_note.QueryRpc.Query.{Iterable}

-- Into a list from the highest to the lowest.
unfoldable pub insert : ℕ → List ℕ → List ℕ
insert i [] = i ∷ []
insert i (j ∷ l) =
    let after = insert i l in if ltb i j then j ∷ after else if i == j then j ∷ l else i ∷ j ∷ l

unfoldable pub descending : List ℕ → List ℕ
unfolding insert
descending [] = []
descending (i ∷ l) = insert i (descending l)

has-insert : (i : ℕ) (l : List ℕ) (k : ℕ) → has (insert i l) k ≡ ((k == i) || has l k)
unfolding insert
has-insert i [] k = refl
has-insert i (j ∷ l) k = ground (arith, has-insert i l k)

pub has-descending : (l : List ℕ) (k : ℕ) → has (descending l) k ≡ has l k
unfolding descending
has-descending [] k = refl
has-descending (i ∷ l) k =
    has-insert i (descending l) k ∙ ap (λ t. (k == i) || t) (has-descending l k)

insert-below : (b i : ℕ) (l : List ℕ) → i < b → All (λ j. j < b) l → All (λ j. j < b) (insert i l)
unfolding insert
insert-below b i [] h k = (h, tt)
insert-below b i (j ∷ l) h k = ground (arith, insert-below b i l h k.1)

below_lower : (b c : ℕ) (l : List ℕ) → b < c → All (λ j. j < b) l → All (λ j. j < c) l
below_lower b c [] h k = tt
below_lower b c (j ∷ l) h k = (omega (arith, k.0), below_lower b c l h k.1)

insert-IsDescending : (i : ℕ) (l : List ℕ) → IsDescending l → IsDescending (insert i l)
unfolding insert
insert-IsDescending i [] h = (tt, tt)
insert-IsDescending i (j ∷ l) h = elim (Bool-cases (ltb i j)) [
  | inl e ↦ rw e (insert-below j i l (ltb→lt i j e) h.0, insert-IsDescending i l h.1)
  | inr e ↦ elim (Bool-cases (i == j)) [
    | inl same ↦ rw (e, same) h
    | inr other ↦ let up : j < i = ground arith in rw (e, other) ((up, below_lower j i l up h.0), h)
  ]
]

pub descending-IsDescending : (l : List ℕ) → IsDescending (descending l)
unfolding descending
descending-IsDescending [] = tt
descending-IsDescending (i ∷ l) = insert-IsDescending i (descending l) (descending-IsDescending l)

pub has_iff : (l : List ℕ) (i : ℕ) → In i l ↔ (has l i ≡ true)
has_iff l i = (
  λ m. any-In (λ j. i == j) i l m ((==_iff i i).1 refl),
  λ h. let (j, m, e) = In-any (λ j. i == j) l h in elim_in j m ((==_iff i j).0 e),
)
  where
    elim_in : (j : ℕ) → In j l → i ≡ j → In i l
    elim_in j m e = subst (λ k. In k l) (sym e) m

-- The numbers below a bound.
unfoldable pub below : ℕ → List ℕ
below zero = []
below (suc n) = n ∷ below n

has-below : (n i : ℕ) → has (below n) i ≡ ltb i n
unfolding below
has-below zero i = ground arith
has-below (suc n) i = ground (arith, has-below n i)

pub contains-below :
    (b : List ℕ) (low high i : ℕ)
    → has (keep (leb low) (below high) ++ b) i ≡ ((leb low i && ltb i high) || has b i)
contains-below b low high i =
    any-append (λ j. i == j) (keep (leb low) (below high)) b
    ∙ ap (λ t. t || has b i) (has-keep (leb low) (below high) i ∙ ground (arith, has-below high i))

abbrev pub list_iterable : Iterable list_bitmaps
list_iterable = record {
  add_range = λ b low high. keep (leb low) (below high) ++ b;
  reverse = descending;
  contains-add_range = contains-below;
  reverse_In = λ b i. (
    λ m. sym (has-descending b i) ∙ (has_iff (descending b) i).0 m,
    λ h. (has_iff (descending b) i).1 (has-descending b i ∙ h),
  );
  reverse-IsDescending = descending-IsDescending;
}

module _ {A : Type 0} (less : A → A → Bool) where
  unfoldable pub insert_by : A → List A → List A
  insert_by x [] = x ∷ []
  insert_by x (y ∷ l) = let after = insert_by x l in if less y x then y ∷ after else x ∷ y ∷ l

  unfoldable pub sort_by : List A → List A
  unfolding insert_by
  sort_by [] = []
  sort_by (x ∷ l) = insert_by x (sort_by l)

module _ {A : Type 0} (number : A → ℕ) where
  abbrev by_number : A → A → Bool
  by_number x y = ltb (number y) (number x)

  at_front :
      (x : A) (l : List A) → IsDescending (map number (x ∷ l)) → insert_by by_number x l ≡ x ∷ l
  unfolding insert_by
  at_front x [] h = refl
  at_front x (y ∷ l) h =
      let down : ltb (number x) (number y) ≡ false = ground (arith, h.0.0) in rw down refl

  pub sort_by-sorted :
      (l : List A) → IsDescending (map number l) → sort_by (λ x y. ltb (number y) (number x)) l ≡ l
  unfolding sort_by
  sort_by-sorted [] h = refl
  sort_by-sorted (x ∷ l) h = ap (insert_by by_number x) (sort_by-sorted l h.1) ∙ at_front x l h

abbrev pub SampleRow : Type 0
SampleRow = PayloadRow (GoMap Bytes) (GoMap ℕ)

-- The record of the sample entity.
pub sample_record :
    (s : Bytes) × (encode_payload_value
        (attributes_json sample_env.string_json)
        (attributes_json sample_env.number_json)
        created.entity_key
        created.content_type
        created.str_attrs
        created.num_attrs
        created.payload
      ≡ ok s)
    × (decode_payload_value
          (attributes_json sample_env.string_json)
          (attributes_json sample_env.number_json)
          s
        ≡ ok created)
sample_record = >>=-eq-ok _ _ (
    decode-encode_payload_value (attributes_json sample_env.string_json)
      (attributes_json sample_env.number_json) created created-IsEntity.encodable)

-- One result for a page.
abbrev pub one_each : Option Options
one_each =
    some (record { at_block = none; include_data = none; results_per_page = some 1; cursor = [] })

abbrev pub or_empty : Option Bytes → Bytes
or_empty none = []
or_empty (some s) = s

-- The content type and the value of the entity, as the response has them.
abbrev pub show_row : IncludeData → SampleRow → Result Bytes
show_row include row =
    let entity = to_payload (λ s. s) (λ s. s) (λ m. m) (λ m. m) sort_by sort_by row include in
    ok (or_empty entity.content_type ++ or_empty entity.value)

abbrev pub shown : ℕ → Bytes
shown i = codes "text/plainhello"
