-- ===== src/Expand/Braces.antt =====
-- What ExpandEnv makes of a text with no dollar, and of a name in braces.
use cli_toolkit.Base.{
  true, [], ◌∷◌, ◌++◌, append_assoc, append-nil, Bytes, ◌≡◌, refl, sym, ap, ◌∙◌, arith,
}
use cli_toolkit.FilePath.Split.{Lacks}
use cli_toolkit.Expand.{
  dollar, open_brace, close_brace, outside, in_braces, has_close, start_name, start_output,
  plain_mode, plain_output, value_of, step, finish, expand_in, expand_env,
}

expand_in-outside :
    (get : Bytes → Bytes) (s t : Bytes)
    → Lacks dollar s
    → expand_in get outside (s ++ t) ≡ s ++ expand_in get outside t
unfolding expand_in step plain_mode plain_output
expand_in-outside get [] t h = refl
expand_in-outside get (c ∷ s) t (hc, h) = rw hc (ap (λ r. c ∷ r) (expand_in-outside get s t h))

has_close-append : (name t : Bytes) → has_close (name ++ close_brace ∷ t) ≡ true
unfolding has_close
has_close-append [] t = refl
has_close-append (c ∷ name) t = ground (arith, has_close-append name t)

expand_in-braces :
    (get : Bytes → Bytes) (seen name t : Bytes)
    → Lacks close_brace name
    → expand_in get (in_braces seen) (name ++ close_brace ∷ t)
      ≡ value_of get (seen ++ name) ++ expand_in get outside t
unfolding expand_in step
expand_in-braces get seen [] t h =
    ap (λ n. value_of get n ++ expand_in get outside t) (sym (append-nil seen))
expand_in-braces get seen (c ∷ name) t (hc, h) = rw hc (
    expand_in-braces get (seen ++ c ∷ []) name t h
    ∙ ap (λ n. value_of get n ++ expand_in get outside t) (append_assoc seen (c ∷ []) name))

-- A text with no dollar in it is left as it is.
pub expand_env-Lacks : (get : Bytes → Bytes) (s : Bytes) → Lacks dollar s → expand_env get s ≡ s
unfolding expand_env
expand_env-Lacks get s h =
    ap (expand_in get outside) (sym (append-nil s))
    ∙ expand_in-outside get s [] h
    ∙ (unfold expand_in finish in append-nil s)

-- Behind a text with no dollar, a name in braces, with no closing brace in it, is replaced by its value,
-- and nothing by nothing if the name is empty; what follows is expanded on its own.
expand_env-append :
    (get : Bytes → Bytes) (s name t : Bytes)
    → Lacks dollar s
    → Lacks close_brace name
    → expand_env get (s ++ dollar ∷ open_brace ∷ (name ++ close_brace ∷ t))
      ≡ s ++ (value_of get name ++ expand_env get t)
unfolding expand_env
expand_env-append get s name t h k =
    expand_in-outside get s (dollar ∷ open_brace ∷ (name ++ close_brace ∷ t)) h
    ∙ ap (λ r. s ++ r) braces
  where
    braces :
        expand_in get outside (dollar ∷ open_brace ∷ (name ++ close_brace ∷ t))
        ≡ value_of get name ++ expand_in get outside t
    braces =
        unfold expand_in step plain_mode plain_output start_name start_output in
        rw (has_close-append name t) (expand_in-braces get [] name t k)
