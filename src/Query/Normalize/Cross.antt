-- ===== src/Query/Normalize/Cross.antt =====
-- The meaning of the cross product of disjunctions.
use pebble_bitmap_store_note.Prelude.{
  ◌≡◌, refl, sym, Bool, ◌&&◌, List, [], ◌∷◌, ◌++◌, map, arith, all, all-append, any-append,
  and_true,
}
use pebble_bitmap_store_note.Query.Ast.{AstTerm, AstAnd, holds}
use pebble_bitmap_store_note.Query.Normalize.{distribute, cross}

module _ (v : AstTerm → Bool) where
  holds-prefix :
      (c : AstAnd) (d : List AstAnd)
      → holds v (map (λ terms. c ++ terms) d) ≡ (all v c && holds v d)
  holds-prefix c [] = ground arith
  holds-prefix c (t ∷ d) = ground (arith, all-append v c t, holds-prefix c d)

  holds-distribute : (ast d : List AstAnd) → holds v (distribute ast d) ≡ (holds v ast && holds v d)
  unfolding distribute
  holds-distribute [] d = refl
  holds-distribute (c ∷ ast) d = ground (
    arith,
    any-append (all v) (map (λ terms. c ++ terms) d) (distribute ast d),
    holds-prefix c d,
    holds-distribute ast d,
  )

  pub holds-cross :
      (ast : List AstAnd) (ds : List (List AstAnd))
      → holds v (cross ast ds) ≡ (holds v ast && all (holds v) ds)
  unfolding cross
  holds-cross ast [] = sym (and_true (holds v ast))
  holds-cross ast (d ∷ ds) =
      ground (arith, holds-cross (distribute ast d) ds, holds-distribute ast d)
