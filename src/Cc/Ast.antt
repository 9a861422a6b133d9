-- ===== src/Cc/Ast.antt =====
-- cc/ast.h, cc/ast.c: the nodes of the syntax tree and the operations on the store `nodes`. A
-- reference is an index of the store. The union of a node and its type are one data type, with a
-- constructor per type; an array of children is a list.
use estros.Common.{
  ℕ, zero, suc, ◌^◌, ◌%◌, Bool, true, false, ◌&&◌, List, [], ◌∷◌, ◌++◌, ltb, leb, ◌==◌,
  if◌then◌else◌, length,
}
use estros.Cc.Token.{Strview}
use estros.Cc.Attempt.{Attempt, ok, aborted, out_of_fuel, ◌>>=◌}

-- The binary operations of `enum cc_ast_node_type`, behind CC_AST_NODE_BINOP_.
pub data Binop : Type 0 where
  assign add sub mul div rem bit_and bit_xor bit_or lshift rshift : Binop
  cond_eq cond_neq cond_gt cond_lt cond_gte cond_lte cond_and cond_or cond_xor : Binop

-- The unary operations, behind CC_AST_NODE_UNOP_.
pub data Unop : Type 0 where
  bit_not cond_not plus minus : Unop

-- `struct cc_ast_node`. A `long double` is its bits.
pub data AstNode : Type 0 where
  invalid : AstNode
  new_var : (name : Strview) → (init type_def flags : ℕ) → AstNode
  new_type :
      (name : Strview)
      → (return_type : ℕ) → (childs : List ℕ) → (flags : ℕ) → (qual_length : List ℕ)
      → (qual_v qual_c : ℕ) → AstNode
  ref_type : (type_name : Strview) → AstNode
  ref_var : (var_name : Strview) → AstNode
  block : (childs : List ℕ) → AstNode
  if_expr : (cond then_ else_ : ℕ) → AstNode
  cast : (child : ℕ) → AstNode
  return_node : (retval : ℕ) → AstNode
  literal_float : (literal_ld : ℕ) → AstNode
  literal_integer : (literal_ull : ℕ) → AstNode
  binop : Binop → (lhs rhs : ℕ) → AstNode
  unop : Unop → (child : ℕ) → AstNode

-- `enum cc_ast_type_flags`.
abbrev pub flags_function : ℕ
flags_function = 0x23

-- `state->nodes[n]`. The pages of the store are zero at first, and 0 is CC_AST_NODE_INVALID.
abbrev pub node_at : List AstNode → ℕ → AstNode
node_at [] n = invalid
node_at (x ∷ nodes) zero = x
node_at (x ∷ nodes) (suc n) = node_at nodes n

abbrev pub set_node : List AstNode → ℕ → AstNode → List AstNode
set_node [] n v = []
set_node (x ∷ nodes) zero v = v ∷ nodes
set_node (x ∷ nodes) (suc n) v = x ∷ set_node nodes n v

unfoldable pub cc_ast_type_is_binop : AstNode → Bool
cc_ast_type_is_binop (binop op lhs rhs) = true
cc_ast_type_is_binop _ = false

-- A reference has 16 bits.
unfoldable pub cc_ast_push_node : List AstNode → AstNode → List AstNode × ℕ
cc_ast_push_node nodes node = (nodes ++ node ∷ [], length nodes % 2 ^ 16)

abbrev pub first_nodes : ℕ → List AstNode → List AstNode
first_nodes zero nodes = []
first_nodes (suc n) [] = []
first_nodes (suc n) (x ∷ nodes) = x ∷ first_nodes n nodes

-- For an empty store `n_nodes - 1` is the largest `size_t`, which no reference is.
unfoldable pub cc_ast_pop_node : List AstNode → (ref : ℕ) → Attempt (List AstNode)
cc_ast_pop_node nodes ref = if suc ref == length nodes then ok (first_nodes ref nodes) else aborted

unfoldable pub push_child : AstNode → ℕ → AstNode
push_child (block childs) c = block (childs ++ c ∷ [])
push_child (new_type name return_type childs flags qual_length qual_v qual_c) c =
    new_type name return_type (childs ++ c ∷ []) flags qual_length qual_v qual_c
push_child node c = node

abbrev pub is_block : AstNode → Bool
is_block (block childs) = true
is_block _ = false

abbrev pub is_new_type : AstNode → Bool
is_new_type (new_type _ _ _ _ _ _ _) = true
is_new_type _ = false

unfoldable pub cc_ast_push_children_to_block : List AstNode → (n c : ℕ) → Attempt (List AstNode)
unfolding push_child
cc_ast_push_children_to_block nodes n c =
    let bp = node_at nodes n in
    if is_block bp
    then (if n == c then aborted else ok (set_node nodes n (push_child bp c)))
    else aborted

unfoldable pub cc_ast_push_children_to_type : List AstNode → (n c : ℕ) → Attempt (List AstNode)
unfolding push_child
cc_ast_push_children_to_type nodes n c =
    let bp = node_at nodes n in
    if is_new_type bp
    then (if n == c then aborted else ok (set_node nodes n (push_child bp c)))
    else aborted

abbrev pub is_empty_block : AstNode → Bool
is_empty_block (block []) = true
is_empty_block _ = false

unfoldable pub cc_ast_push_children_to_block_coalesce :
    List AstNode → (n c : ℕ) → Attempt (List AstNode)
unfolding cc_ast_push_children_to_block
cc_ast_push_children_to_block_coalesce nodes n c =
    let bp = node_at nodes n in
    if is_block bp
    then (if is_empty_block bp
        then ok (set_node nodes n (node_at nodes c))
        else cc_ast_push_children_to_block nodes n c)
    else aborted

unfoldable pub cc_ast_copy_node : List AstNode → (n : ℕ) → Attempt (List AstNode × ℕ)
unfolding cc_ast_push_node
cc_ast_copy_node nodes n =
    if leb 1 n && ltb n (length nodes)
    then ok (cc_ast_push_node nodes (node_at nodes n))
    else aborted

-- cc_ast_coalesce on each reference of an array: the store, and the array afterwards.
abbrev pub coalesce_each :
    (again : List AstNode → ℕ → Attempt (List AstNode × ℕ))
    → List AstNode
    → List ℕ
    → Attempt (List AstNode × List ℕ)
coalesce_each again nodes [] = ok (nodes, [])
coalesce_each again nodes (c ∷ cs) = again nodes c >>= λ (nodes', c').
    coalesce_each again nodes' cs >>= λ (nodes'', cs'). ok (nodes'', c' ∷ cs')

-- The reference to a block of one child becomes the child.
abbrev coalesced_ref : (ref : ℕ) → (childs : List ℕ) → ℕ
coalesced_ref ref (c ∷ []) = c
coalesced_ref ref childs = ref

-- What cc_ast_coalesce does with the node of `ref`, where `again` is its call of itself. The fields
-- of a node are written when all of its calls are done, which no call of an acyclic store sees.
unfoldable pub coalesce_node :
    (again : List AstNode → ℕ → Attempt (List AstNode × ℕ))
    → List AstNode
    → (ref : ℕ) → AstNode
    → Attempt (List AstNode × ℕ)
coalesce_node again nodes ref (block childs) = coalesce_each again nodes childs >>= λ (nodes', cs).
    ok (set_node nodes' ref (block cs), coalesced_ref ref cs)
coalesce_node again nodes ref (new_type name return_type childs flags qual_length qual_v qual_c) =
    again nodes return_type >>= λ (nodes', r).
    coalesce_each again nodes' childs >>= λ (nodes'', cs).
    ok (set_node nodes'' ref (new_type name r cs flags qual_length qual_v qual_c), ref)
coalesce_node again nodes ref (new_var name init type_def flags) =
    again nodes type_def >>= λ (nodes', t).
    again nodes' init >>= λ (nodes'', i). ok (set_node nodes'' ref (new_var name i t flags), ref)
coalesce_node again nodes ref (if_expr cond then_ else_) = again nodes cond >>= λ (n1, c).
    again n1 then_ >>= λ (n2, t).
    again n2 else_ >>= λ (n3, e). ok (set_node n3 ref (if_expr c t e), ref)
coalesce_node again nodes ref (return_node retval) =
    again nodes retval >>= λ (nodes', r). ok (set_node nodes' ref (return_node r), ref)
coalesce_node again nodes ref (binop op lhs rhs) = again nodes lhs >>= λ (n1, l).
    again n1 rhs >>= λ (n2, r). ok (set_node n2 ref (binop op l r), ref)
coalesce_node again nodes ref node = ok (nodes, ref)

-- `fuel` bounds the depth of the calls; a store with a cycle has none.
unfoldable pub cc_ast_coalesce : (fuel : ℕ) → List AstNode → (ref : ℕ) → Attempt (List AstNode × ℕ)
unfolding coalesce_node
cc_ast_coalesce zero nodes ref = out_of_fuel
cc_ast_coalesce (suc fuel) nodes ref =
    coalesce_node (cc_ast_coalesce fuel) nodes ref (node_at nodes ref)
