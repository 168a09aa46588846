-- ===== src/Maps.antt =====
-- Go maps with string keys, and store/string_attributes.go and store/numeric_attributes.go, the
-- attribute maps. A map is nil or the list of its entries in the order of their keys, one for each
-- key. encoding/json writes a map in this order, so what it reads back is the same list; a range
-- over the map goes through the list in an order of its own, a parameter where the code ranges.
pub mod Laws
use pebble_bitmap_store_note.Prelude.{
  ℕ, Option, none, some, List, [], ◌∷◌, Bytes, bytes_eq, bytes_lt, Result, ok, err, panic,
  if◌then◌else◌,
}
use pebble_bitmap_store_note.Packages.Json.{Json}

abbrev pub Entries : Type 0 → Type 0
Entries V = List (Bytes × V)

-- `none` is a nil map.
abbrev pub GoMap : Type 0 → Type 0
GoMap V = Option (Entries V)

module _ {V : Type 0} where
  unfoldable pub get_entry : Entries V → Bytes → Option V
  get_entry [] k = none
  get_entry ((j, v) ∷ m) k = if bytes_eq j k then some v else get_entry m k

  unfoldable pub set_entry : Entries V → Bytes → V → Entries V
  set_entry [] k v = (k, v) ∷ []
  set_entry ((j, w) ∷ m) k v =
      let after = set_entry m k v in
      if bytes_eq j k
      then (j, v) ∷ m
      else if bytes_lt k j
      then (k, v) ∷ (j, w) ∷ m
      else (j, w) ∷ after

  abbrev pub map_entries : GoMap V → Entries V
  map_entries none = []
  map_entries (some m) = m

  -- `m[k]`, with the zero value for a key that is not there
  unfoldable pub map_index : V → GoMap V → Bytes → V
  unfolding get_entry
  map_index zero_value m k = elim (get_entry (map_entries m) k) [ none ↦ zero_value | some v ↦ v ]

  -- `m[k] = v`, which panics on a nil map
  unfoldable pub map_assign : GoMap V → Bytes → V → Result (GoMap V)
  unfolding set_entry
  map_assign none k v = err panic
  map_assign (some m) k v = ok (some (set_entry m k v))

  -- `maps.Clone`, which keeps nil
  abbrev pub clone : GoMap V → GoMap V
  clone m = m

-- The two structs have one field, `Values`, and stand as it.
abbrev pub StringAttributes : Type 0
StringAttributes = GoMap Bytes

abbrev pub NumericAttributes : Type 0
NumericAttributes = GoMap ℕ

abbrev pub new_string_attributes : GoMap Bytes → StringAttributes
new_string_attributes values = values

abbrev pub new_numeric_attributes : GoMap ℕ → NumericAttributes
new_numeric_attributes values = values

-- encoding/json at a map: `Marshal`, and `Unmarshal` into a map that may have entries.
pub record MapJson (V : Type 0) : Type 0 where
  pub marshal : GoMap V → Result Bytes
  pub unmarshal_into : GoMap V → Bytes → Result (GoMap V)

-- `UnmarshalJSON`: a nil map is made first.
unfoldable pub unmarshal_json : {V : Type 0} → MapJson V → GoMap V → Bytes → Result (GoMap V)
unmarshal_json json none s = json.unmarshal_into (some []) s
unmarshal_json json (some values) s = json.unmarshal_into (some values) s

-- What encoding/json does at an attribute map: it calls the two methods, the second on a new struct.
abbrev pub attributes_json : {V : Type 0} → MapJson V → Json (GoMap V)
attributes_json json = record {
  marshal = json.marshal;
  unmarshal = λ s. unmarshal_json json none s;
}
