-- ===== src/Tests/Kinds.antt =====
-- Conversions and comparisons of types.
use lacc.Base.{some, true, false, [], ◌∷◌, ok, err, exhausted, ◌≡◌, refl, arith}
use lacc.Types.Defs.{int, long, basic, Types, get_typetree_handle}
use lacc.Types.Convert.{usual_arithmetic_conversion}
use lacc.Types.Convert.Table.{usual_arithmetic_conversion-table, qualified}
use lacc.Types.Equal.{type_equal}
use lacc.Types.Equal.Identity.{
  type_equal-same_tree, type_equal-self_reference, self_value, self_tree,
}

-- `const unsigned int` and `volatile long`
usual_arithmetic_conversion-table_example :
    usual_arithmetic_conversion []
      (qualified int true true false false)
      (qualified long false false true false)
    ≡ ok (basic long false)
usual_arithmetic_conversion-table_example =
    usual_arithmetic_conversion-table [] int long true false true false false true false false refl
      refl

-- Two list nodes, with the symbols 0 and 1 as their tags: `struct a { struct a *next; }` and `struct b { struct b *next; }`.
abbrev nodes : Types
nodes = self_tree (some 0) (b'p' ∷ []) 1 ∷ self_tree (some 1) (b'p' ∷ []) 2 ∷ []

first_node : get_typetree_handle nodes 1 ≡ ok (self_tree (some 0) (b'p' ∷ []) 1)
unfolding get_typetree_handle
first_node = refl

second_node : get_typetree_handle nodes 2 ≡ ok (self_tree (some 1) (b'p' ∷ []) 2)
unfolding get_typetree_handle
second_node = refl

-- A struct and a pointer to it.
type_equal-same_tree_example : type_equal 9 nodes (self_value false 1) (self_value true 1) ≡ ok true
type_equal-same_tree_example =
    type_equal-same_tree 7 nodes (self_value false 1) (self_value true 1)
      (self_tree (some 0) (b'p' ∷ []) 1) refl refl refl (λ _. first_node)

type_equal-self_reference_example :
    type_equal 100 nodes (self_value false 1) (self_value false 2) ≡ err exhausted
type_equal-self_reference_example =
    type_equal-self_reference 100 nodes false 1 2 (some 0) (some 1) (b'p' ∷ []) (b'p' ∷ [])
      (omega arith) (omega arith) (omega arith) first_node second_node
