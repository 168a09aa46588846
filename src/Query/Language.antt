-- ===== src/Query/Language.antt =====
-- query/language.go and query/types.go: the syntax tree that the grammar builds. The pointers of
-- `EqualExpr` of which the grammar sets exactly one are the constructors of a data type, and the
-- structs `Paren`, `OrRHS` and `AndRHS` stand as the fields of their owners.
use pebble_bitmap_store_note.Prelude.{ℕ, Bool, List, Bytes, codes}

abbrev pub key_attribute_key : Bytes
key_attribute_key = codes "$key"

abbrev pub creator_attribute_key : Bytes
creator_attribute_key = codes "$creator"

abbrev pub owner_attribute_key : Bytes
owner_attribute_key = codes "$owner"

-- A literal: one of the two pointers of `Value` is set.
pub data Value : Type 0 where
  string : Bytes → Value
  number : ℕ → Value

pub record Values : Type 0 where
  pub strings : List Bytes
  pub numbers : List ℕ

pub record Glob : Type 0 where
  pub var : Bytes
  pub is_not : Bool
  pub value : Bytes

pub record LessThan : Type 0 where
  pub var : Bytes
  pub value : Value

pub record LessOrEqualThan : Type 0 where
  pub var : Bytes
  pub value : Value

pub record GreaterThan : Type 0 where
  pub var : Bytes
  pub value : Value

pub record GreaterOrEqualThan : Type 0 where
  pub var : Bytes
  pub value : Value

pub record Equality : Type 0 where
  pub var : Bytes
  pub is_not : Bool
  pub value : Value

pub record Inclusion : Type 0 where
  pub var : Bytes
  pub is_not : Bool
  pub values : Values

mutual
  -- the field `Or`
  pub data Expression : Type 0 where
    expression : OrExpression → Expression

  -- `Left`, and the list `Right`
  pub data OrExpression : Type 0 where
    or_expression : AndExpression → OrRhs → OrExpression

  pub data OrRhs : Type 0 where
    or_end : OrRhs
    or_rhs : AndExpression → OrRhs → OrRhs

  pub data AndExpression : Type 0 where
    and_expression : EqualExpr → AndRhs → AndExpression

  pub data AndRhs : Type 0 where
    and_end : AndRhs
    and_rhs : EqualExpr → AndRhs → AndRhs

  -- `paren is_not nested` is a set `Paren`; the other constructors are leaves.
  pub data EqualExpr : Type 0 where
    paren : Bool → Expression → EqualExpr
    assign : Equality → EqualExpr
    inclusion : Inclusion → EqualExpr
    less_than : LessThan → EqualExpr
    less_or_equal_than : LessOrEqualThan → EqualExpr
    greater_than : GreaterThan → EqualExpr
    greater_or_equal_than : GreaterOrEqualThan → EqualExpr
    glob : Glob → EqualExpr

-- `expr none` is a query for everything, `$all` or `*`.
pub data TopLevel : Type 0 where
  everything : TopLevel
  filtered : Expression → TopLevel
