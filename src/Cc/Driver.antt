-- ===== src/Cc/Driver.antt =====
-- cc/main.c: cc_driver_parse_file, from the bytes of a file to the lines of assembly. The opening of
-- the file, the mapping of the arrays and the dumps are left out.
use estros.Common.{ℕ, ◌-◌, ◌%◌, List, [], length}
use estros.Cc.Token.{Token}
use estros.Cc.Lexer.{cc_tokenize}
use estros.Cc.Attempt.{Attempt, ◌>>=◌}
use estros.Cc.Parser.{ParserState}
use estros.Cc.Parser.Declaration.{cc_parse_translation_unit}
use estros.Cc.Ssa.Emit.{SsaState, cc_ssa_from_ast}
use estros.Cc.Ssa.Optimise.{cc_ssa_optimise}
use estros.Cc.Asm.Lower.{AsmLine, cc_asm_lower_ssa}

-- The state behind the tokenizer.
abbrev pub parser_state : (text : List ℕ) → List Token → ParserState
parser_state text tokens = record { text = text; tokens = tokens; cur_tok = 0; nodes = [] }

-- The state that the emitter begins with.
abbrev pub ssa_state : ParserState → SsaState
ssa_state st = record { text = st.text; nodes = st.nodes; ssa_funcs = []; ssa_tokens = [] }

-- The parts behind the parser, for the root of the tree. No code pushes raw data.
unfoldable pub compile_tree : (fuel : ℕ) → ℕ × ParserState → Attempt (List AsmLine)
unfolding cc_ssa_from_ast cc_ssa_optimise cc_asm_lower_ssa
compile_tree fuel (ast_root, st) = cc_ssa_from_ast fuel (ssa_state st) ast_root >>= λ state.
    cc_ssa_optimise state >>= λ optimised. cc_asm_lower_ssa optimised []

-- The parts behind the tokenizer.
unfoldable pub parse_tokens : (fuel : ℕ) → ParserState → Attempt (List AsmLine)
unfolding cc_parse_translation_unit compile_tree
parse_tokens fuel start =
    cc_parse_translation_unit fuel start >>= λ parsed. compile_tree fuel parsed

-- `mmap` maps whole pages: how many bytes behind the text that are.
unfoldable pub mapped_behind : (page_size : ℕ) → (text : List ℕ) → ℕ
mapped_behind page_size text = (page_size - length text % page_size) % page_size

-- The size of a page is the system's.
unfoldable pub cc_driver_parse_file :
    (page_size fuel : ℕ) → (text : List ℕ) → Attempt (List AsmLine)
unfolding mapped_behind cc_tokenize parse_tokens
cc_driver_parse_file page_size fuel text =
    cc_tokenize (mapped_behind page_size text) fuel text >>= λ tokens.
    parse_tokens fuel (parser_state text tokens)
