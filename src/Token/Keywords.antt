-- ===== src/Token/Keywords.antt =====
-- `lookup_ident` of crates/formlogic-core/src/token.rs.
use formlogic_rust.Token.Kind.{TokenType, is_eof}
use formlogic_rust.Token.Text.{Text, chars, text_eq}
use formlogic_rust.Common.{
  Bool, Bool-cases, List, [], false, if◌then◌else◌, inl, inr, not, refl, true, ◌&&◌, ◌∷◌, ◌≡◌,
}

-- The arms of the match, in their order.
abbrev pub keywords : List (Text × TokenType)
keywords =
    (chars "function", TokenType.tok_function)
    ∷ (chars "let", TokenType.tok_let)
    ∷ (chars "var", TokenType.tok_var)
    ∷ (chars "const", TokenType.tok_const)
    ∷ (chars "true", TokenType.tok_true)
    ∷ (chars "false", TokenType.tok_false)
    ∷ (chars "if", TokenType.tok_if)
    ∷ (chars "else", TokenType.tok_else)
    ∷ (chars "return", TokenType.tok_return)
    ∷ (chars "null", TokenType.tok_null)
    ∷ (chars "undefined", TokenType.tok_undefined)
    ∷ (chars "while", TokenType.tok_while)
    ∷ (chars "for", TokenType.tok_for)
    ∷ (chars "break", TokenType.tok_break)
    ∷ (chars "continue", TokenType.tok_continue)
    ∷ (chars "throw", TokenType.tok_throw)
    ∷ (chars "try", TokenType.tok_try)
    ∷ (chars "catch", TokenType.tok_catch)
    ∷ (chars "finally", TokenType.tok_finally)
    ∷ (chars "class", TokenType.tok_class)
    ∷ (chars "extends", TokenType.tok_extends)
    ∷ (chars "new", TokenType.tok_new)
    ∷ (chars "this", TokenType.tok_this)
    ∷ (chars "super", TokenType.tok_super)
    ∷ (chars "static", TokenType.tok_static)
    ∷ (chars "async", TokenType.tok_async)
    ∷ (chars "await", TokenType.tok_await)
    ∷ (chars "of", TokenType.tok_of)
    ∷ (chars "in", TokenType.tok_in)
    ∷ (chars "do", TokenType.tok_do)
    ∷ (chars "switch", TokenType.tok_switch)
    ∷ (chars "case", TokenType.tok_case)
    ∷ (chars "default", TokenType.tok_default)
    ∷ (chars "get", TokenType.tok_get)
    ∷ (chars "set", TokenType.tok_set)
    ∷ (chars "typeof", TokenType.tok_typeof)
    ∷ (chars "instanceof", TokenType.tok_instanceof)
    ∷ (chars "void", TokenType.tok_void)
    ∷ (chars "delete", TokenType.tok_delete)
    ∷ (chars "yield", TokenType.tok_yield)
    ∷ (chars "import", TokenType.tok_import)
    ∷ (chars "debugger", TokenType.tok_debugger)
    ∷ []

unfoldable pub match_text : Text → List (Text × TokenType) → TokenType → TokenType
match_text s [] otherwise = otherwise
match_text s ((key, t) ∷ arms) otherwise =
    let rest = match_text s arms otherwise in if text_eq s key then t else rest

unfoldable pub lookup_ident : Text → TokenType
unfolding match_text
lookup_ident ident = match_text ident keywords TokenType.tok_ident

-- No arm's token is the end's.
abbrev pub without_eof : List (Text × TokenType) → Bool
without_eof [] = true
without_eof ((key, t) ∷ arms) = not (is_eof t) && without_eof arms

pub match_text-is_eof :
    (s : Text) (arms : List (Text × TokenType)) (otherwise : TokenType)
    → is_eof otherwise ≡ false
    → without_eof arms ≡ true
    → is_eof (match_text s arms otherwise) ≡ false
unfolding match_text
match_text-is_eof s [] otherwise h all = h
match_text-is_eof s ((key, t) ∷ arms) otherwise h all =
    let (this, rest) = both (is_eof t) (without_eof arms) all in
    elim (Bool-cases (text_eq s key)) [
      | inl same ↦ rw same this
      | inr other ↦ rw other (match_text-is_eof s arms otherwise h rest)
    ]
  where
    both : (a b : Bool) → (not a && b) ≡ true → (a ≡ false) × (b ≡ true)
    both true b h = cc
    both false b h = (refl, h)

pub lookup_ident-is_eof : (s : Text) → is_eof (lookup_ident s) ≡ false
unfolding lookup_ident
lookup_ident-is_eof s = match_text-is_eof s keywords TokenType.tok_ident refl refl
