-- ===== src/Protocol/Tokens.antt =====
-- The tokens of a line that the task protocol writes (src/control/task_protocol.cc).
use glimmer.Prelude.{
  ℕ, zero, suc, ◌≤◌, ◌≡◌, refl, ap, sym, ◌∙◌, Bool, true, false, not, ◌&&◌, List, [], ◌∷◌, ◌++◌,
  ◌==◌, arith, length, take,
}
use mathlib.Core.List.{append_assoc, append-nil}
use glimmer.Protocol.{
  Bytes, is_separator, flush, tokens_of, split_tokens, strip_last, all_bytes, spaced, max_tokens,
}

-- Neither a separator nor the end of a line.
unfoldable pub is_plain : ℕ → Bool
is_plain c = not (c == 32) && not (c == 9) && not (c == 10) && not (c == 13)

unfoldable pub is_word : Bytes → Bool
unfolding all_bytes is_plain
is_word [] = false
is_word (c ∷ cs) = all_bytes is_plain (c ∷ cs)

unfoldable pub all_words : List Bytes → Bool
unfolding is_word
all_words [] = true
all_words (t ∷ ts) = is_word t && all_words ts

tokens_of-append :
    (t rest token : Bytes)
    → all_bytes is_plain t ≡ true
    → tokens_of (t ++ rest) token ≡ tokens_of rest (token ++ t)
unfolding tokens_of all_bytes is_plain is_separator
tokens_of-append [] rest token h = ap (tokens_of rest) (sym (append-nil token))
tokens_of-append (c ∷ t) rest token h =
    let plain : is_separator c ≡ false = ground arith in
    rw plain (
      tokens_of-append t rest (token ++ c ∷ []) (ground arith)
      ∙ ap (tokens_of rest) (append_assoc token (c ∷ []) t))

tokens_of-word :
    (t rest : Bytes) → is_word t ≡ true → tokens_of (t ++ 32 ∷ rest) [] ≡ t ∷ tokens_of rest []
unfolding is_word tokens_of flush
tokens_of-word [] rest h = cc
tokens_of-word (c ∷ t) rest h =
    tokens_of-append (c ∷ t) (32 ∷ rest) [] h ∙ unfold is_separator in refl

tokens_of-last : (t : Bytes) → is_word t ≡ true → tokens_of t [] ≡ t ∷ []
unfolding is_word tokens_of flush
tokens_of-last [] h = cc
tokens_of-last (c ∷ t) h =
    ap (λ x. tokens_of x []) (sym (append-nil (c ∷ t))) ∙ tokens_of-append (c ∷ t) [] [] h

pub tokens_of-spaced : (ts : List Bytes) → all_words ts ≡ true → tokens_of (spaced ts) [] ≡ ts
unfolding all_words spaced
tokens_of-spaced [] h = unfold tokens_of flush in refl
tokens_of-spaced (t ∷ []) h = tokens_of-last t (ground arith)
tokens_of-spaced (t ∷ u ∷ ts) h =
    tokens_of-word t (spaced (u ∷ ts)) (ground arith)
    ∙ ap (λ xs. t ∷ xs) (tokens_of-spaced (u ∷ ts) (ground arith))

strip_last-absent :
    (c : ℕ) (xs : Bytes) → all_bytes (λ x. not (x == c)) xs ≡ true → strip_last c xs ≡ xs
unfolding strip_last all_bytes
strip_last-absent c [] h = refl
strip_last-absent c (x ∷ []) h = ground arith
strip_last-absent c (x ∷ y ∷ ys) h = ap (λ zs. x ∷ zs) (strip_last-absent c (y ∷ ys) (ground arith))

strip_last-append : (c : ℕ) (xs : Bytes) → strip_last c (xs ++ c ∷ []) ≡ xs
unfolding strip_last
strip_last-append c [] = ground arith
strip_last-append c (x ∷ []) = ap (λ zs. x ∷ zs) (strip_last-append c [])
strip_last-append c (x ∷ y ∷ ys) = ap (λ zs. x ∷ zs) (strip_last-append c (y ∷ ys))

abbrev not_return : ℕ → Bool
not_return x = not (x == 13)

plain_not_return : (t : Bytes) → all_bytes is_plain t ≡ true → all_bytes not_return t ≡ true
unfolding all_bytes is_plain
plain_not_return [] h = refl
plain_not_return (c ∷ t) h = ground (arith, plain_not_return t)

all_bytes-append :
    (xs ys : Bytes)
    → all_bytes not_return xs ≡ true
    → all_bytes not_return ys ≡ true
    → all_bytes not_return (xs ++ ys) ≡ true
unfolding all_bytes
all_bytes-append [] ys h k = k
all_bytes-append (x ∷ xs) ys h k = ground (arith, all_bytes-append xs ys)

word_plain : (t : Bytes) → is_word t ≡ true → all_bytes is_plain t ≡ true
unfolding is_word
word_plain [] h = cc
word_plain (c ∷ t) h = h

spaced_inner : (ts : List Bytes) → all_words ts ≡ true → all_bytes not_return (spaced ts) ≡ true
unfolding all_words spaced
spaced_inner [] h = unfold all_bytes in refl
spaced_inner (t ∷ []) h = plain_not_return t (word_plain t (ground arith))
spaced_inner (t ∷ u ∷ ts) h =
    all_bytes-append t (32 ∷ spaced (u ∷ ts)) (plain_not_return t (word_plain t (ground arith)))
      (unfold all_bytes in spaced_inner (u ∷ ts) (ground arith))

take-all : (n : ℕ) (ts : List Bytes) → length ts ≤ n → take n ts ≡ ts
take-all zero [] h = refl
take-all zero (t ∷ ts) h = ground arith
take-all (suc n) [] h = refl
take-all (suc n) (t ∷ ts) h = ap (λ xs. t ∷ xs) (take-all n ts (ground arith))

-- A line of at most 24 words, written with one blank between them and a line feed after them, is
-- split into those words.
pub split_tokens-spaced :
    (ts : List Bytes)
    → all_words ts ≡ true
    → length ts ≤ max_tokens
    → split_tokens (strip_last 13 (strip_last 10 (spaced ts ++ 10 ∷ [])))
      ≡ record { values = ts; overflow = false }
unfolding split_tokens
split_tokens-spaced ts h n =
    rw
      (
        strip_last-append 10 (spaced ts),
        strip_last-absent 13 (spaced ts) (spaced_inner ts h),
        tokens_of-spaced ts h,
        take-all 24 ts n,
      )
      (ap (λ (o : Bool). record { values = ts; overflow = o }) (ground (arith, n)))
