-- ===== src/Cc/Parser/Tests.antt =====
-- cc/parser.c: the tests on the type of a token.
use estros.Common.{Bool, true, false}
use estros.Cc.Token.{TokenType}

abbrev pub is_asterisk : TokenType → Bool
is_asterisk TokenType.asterisk = true
is_asterisk _ = false

abbrev pub is_div : TokenType → Bool
is_div TokenType.div = true
is_div _ = false

abbrev pub is_sub : TokenType → Bool
is_sub TokenType.sub = true
is_sub _ = false

abbrev pub is_add : TokenType → Bool
is_add TokenType.add = true
is_add _ = false

abbrev pub is_lshift : TokenType → Bool
is_lshift TokenType.lshift = true
is_lshift _ = false

abbrev pub is_rshift : TokenType → Bool
is_rshift TokenType.rshift = true
is_rshift _ = false

abbrev pub is_cond_lte : TokenType → Bool
is_cond_lte TokenType.cond_lte = true
is_cond_lte _ = false

abbrev pub is_cond_gte : TokenType → Bool
is_cond_gte TokenType.cond_gte = true
is_cond_gte _ = false

abbrev pub is_cond_lt : TokenType → Bool
is_cond_lt TokenType.cond_lt = true
is_cond_lt _ = false

abbrev pub is_cond_gt : TokenType → Bool
is_cond_gt TokenType.cond_gt = true
is_cond_gt _ = false

abbrev pub is_cond_neq : TokenType → Bool
is_cond_neq TokenType.cond_neq = true
is_cond_neq _ = false

abbrev pub is_ampersand : TokenType → Bool
is_ampersand TokenType.ampersand = true
is_ampersand _ = false

abbrev pub is_bit_xor : TokenType → Bool
is_bit_xor TokenType.bit_xor = true
is_bit_xor _ = false

abbrev pub is_bit_or : TokenType → Bool
is_bit_or TokenType.bit_or = true
is_bit_or _ = false

abbrev pub is_cond_and : TokenType → Bool
is_cond_and TokenType.cond_and = true
is_cond_and _ = false

abbrev pub is_cond_or : TokenType → Bool
is_cond_or TokenType.cond_or = true
is_cond_or _ = false

abbrev pub is_qmark : TokenType → Bool
is_qmark TokenType.qmark = true
is_qmark _ = false

abbrev pub is_colon : TokenType → Bool
is_colon TokenType.colon = true
is_colon _ = false

abbrev pub is_kw_return : TokenType → Bool
is_kw_return TokenType.kw_return = true
is_kw_return _ = false

abbrev pub is_semi : TokenType → Bool
is_semi TokenType.semi = true
is_semi _ = false

abbrev pub is_lbrace : TokenType → Bool
is_lbrace TokenType.lbrace = true
is_lbrace _ = false

abbrev pub is_rbrace : TokenType → Bool
is_rbrace TokenType.rbrace = true
is_rbrace _ = false

abbrev pub is_comma : TokenType → Bool
is_comma TokenType.comma = true
is_comma _ = false

abbrev pub is_ellipsis : TokenType → Bool
is_ellipsis TokenType.ellipsis = true
is_ellipsis _ = false

abbrev pub is_lparen : TokenType → Bool
is_lparen TokenType.lparen = true
is_lparen _ = false

abbrev pub is_rparen : TokenType → Bool
is_rparen TokenType.rparen = true
is_rparen _ = false
