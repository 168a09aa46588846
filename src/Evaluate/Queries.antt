-- ===== src/Evaluate/Queries.antt =====
-- The bitmap of a normalised query.
use pebble_bitmap_store_note.Prelude.{
  ℕ, ◌≡◌, sym, ap₂, ◌∙◌, Bool, true, false, ◌&&◌, ◌||◌, Option, none, some, [], ◌∷◌, all, All,
  Bytes, ok, >>=-eq-ok, ok-injective, arith, subst, and_true, or_false, and_assoc, or_assoc,
}
use pebble_bitmap_store_note.Packages.PebbleDb.{Pebble}
use pebble_bitmap_store_note.Packages.Roaring64.{Roaring}
use pebble_bitmap_store_note.Query.Ast.{AstAnd, AstOr, holds}
use pebble_bitmap_store_note.Query.Normalize.Total.{IsDnf, IsNonempty}
use pebble_bitmap_store_note.Index.Attributes.{Attributes, Indexes}
use pebble_bitmap_store_note.Evaluate.{
  evaluate_term, join, and_loop, evaluate_and, or_loop, evaluate_expr,
}
use pebble_bitmap_store_note.Evaluate.Satisfies.{satisfies}
use pebble_bitmap_store_note.Evaluate.Terms.{IsReadable, evaluate_term-satisfies}

module _ (p : Pebble) (r : Roaring) (path_match : Bytes → Bytes → Bool) (d : p.Db) (a : Attributes)
    (x : Indexes p r d a) (i : ℕ) where
  open r use {Bitmap, contains, or, and, contains-or, contains-and}

  -- A bitmap, not nil, that holds `i` exactly if `t`.
  abbrev pub Decides : Option Bitmap → Bool → Type 0
  Decides none t = ⊥
  Decides (some b) t = contains b i ≡ t

  and_loop-all :
      (c : AstAnd) (tmp : Bitmap) (t : Bool) (b : Option Bitmap)
      → All IsReadable c
      → contains tmp i ≡ t
      → and_loop p r path_match d (some tmp) c ≡ ok b
      → Decides b (t && all (satisfies path_match a i) c)
  unfolding and_loop
  and_loop-all [] tmp t b n e h =
      subst (λ o. Decides o (t && true)) (ok-injective h) (e ∙ sym (and_true t))
  and_loop-all (term ∷ c) tmp t b n e h =
      let (bm, got, h') = >>=-eq-ok (evaluate_term p r path_match d term) _ h in
      let u : Bool = satisfies path_match a i term in
      subst (Decides b) (and_assoc t u (all (satisfies path_match a i) c)) (
        and_loop-all c (and tmp bm) (t && u) b n.1
          (contains-and tmp bm i
            ∙ ap₂ ◌&&◌ e (evaluate_term-satisfies p r d a x i path_match term bm n.0 got))
          h')

  and-all :
      (c : AstAnd) (b : Option Bitmap)
      → IsNonempty c
      → All IsReadable c
      → evaluate_and p r path_match d c ≡ ok b
      → Decides b (all (satisfies path_match a i) c)
  unfolding evaluate_and and_loop
  and-all [] b ne n h = absurd (omega arith)
  and-all (term ∷ c) b ne n h =
      let (bm, got, h') = >>=-eq-ok (evaluate_term p r path_match d term) _ h in
      and_loop-all c bm (satisfies path_match a i term) b n.1
        (evaluate_term-satisfies p r d a x i path_match term bm n.0 got) h'

  -- One round of the loop over the conjunctions, which cannot meet a nil bitmap.
  or_step :
      (tmp : Bitmap) (t u : Bool) (bm b : Option Bitmap)
      → contains tmp i ≡ t
      → Decides bm u
      → join p r or (some tmp) bm ≡ ok b
      → Decides b (t || u)
  unfolding join
  or_step tmp t u none b e k h = absurd k
  or_step tmp t u (some bm) b e k h =
      subst (λ o. Decides o (t || u)) (ok-injective h) (contains-or tmp bm i ∙ ap₂ ◌||◌ e k)

  or_loop-any :
      (o : AstOr) (tmp : Option Bitmap) (t : Bool) (b : Option Bitmap)
      → All IsNonempty o
      → All (All IsReadable) o
      → Decides tmp t
      → or_loop p r path_match d tmp o ≡ ok b
      → Decides b (t || holds (satisfies path_match a i) o)
  unfolding or_loop
  or_loop-any [] tmp t b ne n e h =
      subst (λ o. Decides o (t || false)) (ok-injective h)
        (subst (Decides tmp) (sym (or_false t)) e)
  or_loop-any (c ∷ o) none t b ne n e h = absurd e
  or_loop-any (c ∷ o) (some tmp) t b ne n e h =
      let (bm, got, h') = >>=-eq-ok (evaluate_and p r path_match d c) _ h in
      let (tmp', joined, h'') = >>=-eq-ok (join p r or (some tmp) bm) _ h' in
      let u : Bool = all (satisfies path_match a i) c in
      subst (Decides b) (or_assoc t u (holds (satisfies path_match a i) o)) (
        or_loop-any o tmp' (t || u) b ne.1 n.1
          (or_step tmp t u bm tmp' e (and-all c bm ne.0 n.0 got) joined) h'')

  -- In a database that indexes the attributes `a`, a disjunctive normal form of readable terms is
  -- evaluated to a bitmap, not nil, that holds an identifier exactly if its attributes satisfy it.
  pub evaluate_expr-holds :
      (o : AstOr) (b : Option Bitmap)
      → IsDnf o
      → All (All IsReadable) o
      → evaluate_expr p r path_match d o ≡ ok b
      → Decides b (holds (satisfies path_match a i) o)
  unfolding evaluate_expr or_loop join
  evaluate_expr-holds [] b dnf n h = absurd (omega arith)
  evaluate_expr-holds (c ∷ o) b dnf n h =
      let (bm, got, h') = >>=-eq-ok (evaluate_and p r path_match d c) _ h in
      or_loop-any o bm (all (satisfies path_match a i) c) b dnf.1.1 n.1
        (and-all c bm dnf.1.0 n.0 got) h'
