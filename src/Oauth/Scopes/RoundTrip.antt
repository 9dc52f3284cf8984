-- ===== src/Oauth/Scopes/RoundTrip.antt =====
-- `SplitScopes` reads what `FormatScopes` writes.
use Prim.Native.Char.{Char}
use Prim.Native.String.{[], ◌∷◌}
use mathlib.Core.List.{append_assoc, append-nil}
use metafusion_auth.Prelude.{
  String, Bool, true, false, not, ◌&&◌, ◌≡◌, refl, sym, ap, ◌∙◌, List, ◌++◌, All, Distinct, arith,
  contains-of-Distinct,
}
use metafusion_auth.Text.{is_space}
use metafusion_auth.Oauth.Scopes.{
  fields, split_from, split_scopes, format_scopes, push_first, join_with_space, starts_word,
}

-- A text that is not empty and has no space.
abbrev pub is_word : String → Bool
is_word [] = false
is_word (c ∷ []) = not (is_space c)
is_word (c ∷ d ∷ s) = not (is_space c) && is_word (d ∷ s)

first_char : (c : Char) (s : String) → is_word (c ∷ s) ≡ true → is_space c ≡ false
first_char c [] h = ground arith
first_char c (d ∷ s) h = ground arith

next_chars : (c d : Char) (s : String) → is_word (c ∷ d ∷ s) ≡ true → is_word (d ∷ s) ≡ true
next_chars c d s h = ground arith

fields-push_first :
    (c : Char) (s : String)
    → is_space c ≡ false
    → starts_word s ≡ true
    → fields (c ∷ s) ≡ push_first c (fields s)
unfolding fields
fields-push_first c s h k = rw (h, k) refl

fields-word : (w : String) → is_word w ≡ true → fields w ≡ List.◌∷◌ w List.[]
unfolding fields
fields-word [] h = cc
fields-word (c ∷ []) h = rw (first_char c [] h) refl
fields-word (c ∷ d ∷ s) h =
    let tail = next_chars c d s h in
    fields-push_first c (d ∷ s) (first_char c (d ∷ s) h) (rw (first_char d s tail) refl)
    ∙ ap (push_first c) (fields-word (d ∷ s) tail)

fields-join_with_space :
    (w rest : String)
    → is_word w ≡ true
    → fields (join_with_space w rest) ≡ List.◌∷◌ w (fields rest)
unfolding fields is_space
fields-join_with_space [] rest h = cc
fields-join_with_space (c ∷ []) rest h = rw (first_char c [] h) refl
fields-join_with_space (c ∷ d ∷ s) rest h =
    let tail = next_chars c d s h in
    fields-push_first c (join_with_space (d ∷ s) rest) (first_char c (d ∷ s) h)
      (rw (first_char d s tail) refl)
    ∙ ap (push_first c) (fields-join_with_space (d ∷ s) rest tail)

fields-format_scopes :
    (ws : List String) → All (λ w. is_word w ≡ true) ws → fields (format_scopes ws) ≡ ws
unfolding format_scopes fields
fields-format_scopes List.[] h = refl
fields-format_scopes (List.◌∷◌ w List.[]) (h, k) = fields-word w h
fields-format_scopes (List.◌∷◌ w (List.◌∷◌ v ws)) (h, k) =
    fields-join_with_space w (format_scopes (List.◌∷◌ v ws)) h
    ∙ ap (List.◌∷◌ w) (fields-format_scopes (List.◌∷◌ v ws) k)

split_from-of_Distinct :
    (out ws : List String) → Distinct (out ++ ws) → split_from out ws ≡ out ++ ws
unfolding split_from
split_from-of_Distinct out List.[] d = sym (append-nil out)
split_from-of_Distinct out (List.◌∷◌ w ws) d = rw (contains-of-Distinct out ws w d) (
    split_from-of_Distinct (out ++ List.◌∷◌ w List.[]) ws
      (rw (append_assoc out (List.◌∷◌ w List.[]) ws) d)
    ∙ append_assoc out (List.◌∷◌ w List.[]) ws)

-- The scopes that `FormatScopes` writes are the ones that `SplitScopes` reads, in the same order, when
-- they are texts without spaces, none of them empty and none twice.
pub split_scopes-format_scopes :
    (ws : List String)
    → All (λ w. is_word w ≡ true) ws
    → Distinct ws
    → split_scopes (format_scopes ws) ≡ ws
unfolding split_scopes
split_scopes-format_scopes ws words distinct =
    rw (fields-format_scopes ws words) (split_from-of_Distinct List.[] ws distinct)
