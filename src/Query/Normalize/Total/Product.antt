-- ===== src/Query/Normalize/Total/Product.antt =====
-- The shape of the cross product.
use pebble_bitmap_store_note.Prelude.{
  ◌<◌, List, [], ◌∷◌, ◌++◌, map, arith, length, length-append, All, All-append,
}
use pebble_bitmap_store_note.Query.Ast.{AstAnd}
use pebble_bitmap_store_note.Query.Normalize.{distribute, cross}

abbrev pub IsNonempty : AstAnd → Type 0
IsNonempty c = 0 < length c

-- A disjunction with a member, each of which has a term.
abbrev pub IsDnf : List AstAnd → Type 0
IsDnf o = (0 < length o) × All IsNonempty o

pub IsDnf-append : (o p : List AstAnd) → IsDnf o → All IsNonempty p → IsDnf (o ++ p)
IsDnf-append o p h k = (omega (arith, length-append o p), All-append IsNonempty o p h.1 k)

prefix-IsNonempty :
    (c : AstAnd) (d : List AstAnd) → All IsNonempty d → All IsNonempty (map (λ terms. c ++ terms) d)
prefix-IsNonempty c [] h = tt
prefix-IsNonempty c (t ∷ d) h = (omega (arith, length-append c t), prefix-IsNonempty c d h.1)

prefix-IsDnf : (c : AstAnd) (d : List AstAnd) → IsDnf d → IsDnf (map (λ terms. c ++ terms) d)
prefix-IsDnf c [] h = absurd (omega arith)
prefix-IsDnf c (t ∷ d) h = (omega arith, prefix-IsNonempty c (t ∷ d) h.1)

distribute-IsNonempty : (ast d : List AstAnd) → All IsNonempty d → All IsNonempty (distribute ast d)
unfolding distribute
distribute-IsNonempty [] d h = tt
distribute-IsNonempty (c ∷ ast) d h =
    All-append IsNonempty (map (λ terms. c ++ terms) d) (distribute ast d) (prefix-IsNonempty c d h)
      (distribute-IsNonempty ast d h)

distribute-IsDnf : (ast d : List AstAnd) → 0 < length ast → IsDnf d → IsDnf (distribute ast d)
unfolding distribute
distribute-IsDnf [] d n h = absurd (omega arith)
distribute-IsDnf (c ∷ ast) d n h =
    IsDnf-append (map (λ terms. c ++ terms) d) (distribute ast d) (prefix-IsDnf c d h)
      (distribute-IsNonempty ast d h.1)

cross-IsDnf :
    (ast : List AstAnd) (ds : List (List AstAnd)) → IsDnf ast → All IsDnf ds → IsDnf (cross ast ds)
unfolding cross
cross-IsDnf ast [] h k = h
cross-IsDnf ast (d ∷ ds) h k =
    cross-IsDnf (distribute ast d) ds (distribute-IsDnf ast d h.0 k.0) k.1

-- The product that `AndExpression.Normalize` starts from one empty conjunction.
pub product-IsDnf :
    (d : List AstAnd) (ds : List (List AstAnd))
    → IsDnf d
    → All IsDnf ds
    → IsDnf (cross ([] ∷ []) (d ∷ ds))
unfolding cross
product-IsDnf d ds h k =
    cross-IsDnf (distribute ([] ∷ []) d) ds (distribute-IsDnf ([] ∷ []) d (omega arith) h) k
