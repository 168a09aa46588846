-- ===== src/Events/Moved.antt =====
-- Moving an entity from the bitmap of one value of an attribute to that of another.
use pebble_bitmap_store_note.Prelude.{
  ◌≡◌, ◌↔◌, refl, sym, ap, ◌∙◌, Bool, true, false, not, ◌&&◌, ◌||◌, Option, none, some, inl, inr,
  Bytes, bytes_eq, bytes_eq_iff, Bool-cases, if◌then◌else◌, arith,
}
use pebble_bitmap_store_note.Index.Attributes.{passes}
use pebble_bitmap_store_note.Maps.{Entries, get_entry, set_entry, map_index}
use pebble_bitmap_store_note.Maps.Laws.{get_entry-set_entry}

module _ {V : Type 0} (eq : V → V → Bool) (eq_iff : (v w : V) → (eq v w ≡ true) ↔ (v ≡ w))
    (hidden : Bytes → Bool) (zero_value : V) (entries : Entries V) (name : Bytes) (new : V)
    (shown : hidden name ≡ false) where
  abbrev pub visible_entry : Entries V → Bytes → Option V
  visible_entry l m = if hidden m then none else get_entry l m

  abbrev pub old_value : V
  old_value = map_index zero_value (some entries) name

  -- The old value's bitmap loses what the entity had there.
  taken_out :
      (w : V) (o : Option V)
      → (if eq (elim o as (λ _. V) [ none ↦ zero_value | some v ↦ v ]) w
          then false
          else passes (λ v. eq v w) o)
        ≡ false
  taken_out w none = ground arith
  taken_out w (some v) = ground arith

  own_move :
      (m : Bytes) (w : V)
      → (if bytes_eq name m && eq new w
          then true
          else (if bytes_eq name m && eq old_value w
              then false
              else passes (λ v. eq v w) (visible_entry entries m)))
        ≡ passes (λ v. eq v w) (visible_entry (set_entry entries name new) m)
  unfolding map_index
  own_move m w = elim (Bool-cases (bytes_eq name m)) [
    | inl same ↦
        let here : name ≡ m = (bytes_eq_iff name m).0 same in
        let hid : hidden m ≡ false = ap hidden (sym here) ∙ shown in
        let found : get_entry (set_entry entries name new) m ≡ some new =
          rw same at (get_entry-set_entry entries name new m) in
        let out : (if eq old_value w then false else passes (λ v. eq v w) (get_entry entries m))
            ≡ false =
          ap (λ k. if eq old_value w then false else passes (λ v. eq v w) (get_entry entries k))
            (sym here)
          ∙ taken_out w (get_entry entries name) in
        rw (same, hid, found) (ground (arith, out))
    | inr other ↦
        let found : get_entry (set_entry entries name new) m ≡ get_entry entries m =
          rw other at (get_entry-set_entry entries name new m) in
        rw (other, found) refl
  ]

  pub moved :
      (t : Bool) (m : Bytes) (w : V) (o : Option V) (h : Bool)
      → h ≡ passes (λ v. eq v w) o
      → (t ≡ true → o ≡ visible_entry entries m)
      → (if bytes_eq name m && eq new w
          then t || (if bytes_eq name m && eq old_value w then not t && h else h)
          else (if bytes_eq name m && eq old_value w then not t && h else h))
        ≡ passes (λ v. eq v w) (if t then visible_entry (set_entry entries name new) m else o)
  moved true m w o h e at_id = rw (e ∙ ap (passes (λ v. eq v w)) (at_id refl)) (own_move m w)
  moved false m w o h e at_id = ground (arith, e)
