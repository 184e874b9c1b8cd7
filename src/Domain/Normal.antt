-- ===== src/Domain/Normal.antt =====
-- src/domain.rs: the normal form of a symbol is one. Unicode gives no character that is both a
-- letter or digit and a space.
use mathlib.Core.List.{reverse, reverse_aux, reverse-reverse}
use market_stream_gateway.Prelude.{
  ℕ, ◌≡◌, refl, sym, ap, ◌∙◌, Bool, true, false, [], ◌∷◌, arith, map, ok, is_empty, ltb,
}
use market_stream_gateway.Text.{Text, len, is_whitespace, is_ascii_alphanumeric, to_ascii_uppercase}
use market_stream_gateway.Domain.Symbol.{
  drop_while, trim, all_chars, is_symbol_char, normalize_symbol,
}

len-upper : (s : Text) → len (map to_ascii_uppercase s) ≡ len s
unfolding to_ascii_uppercase
len-upper [] = refl
len-upper (c ∷ s) = ground (arith, len-upper s)

upper-upper :
    (s : Text) → map to_ascii_uppercase (map to_ascii_uppercase s) ≡ map to_ascii_uppercase s
unfolding to_ascii_uppercase
upper-upper [] = refl
upper-upper (c ∷ s) = ground (arith, upper-upper s)

pub all_chars-reverse_aux :
    (p : ℕ → Bool) (s t : Text)
    → all_chars p s ≡ true
    → all_chars p t ≡ true
    → all_chars p (reverse_aux s t) ≡ true
all_chars-reverse_aux p [] t h k = k
all_chars-reverse_aux p (c ∷ s) t h k =
    all_chars-reverse_aux p s (c ∷ t) (ground arith) (ground arith)

module _ (wide : ℕ → Bool) (apart : (c : ℕ) → wide c ≡ true → is_whitespace c ≡ false) where
  symbol_char-not_whitespace : (c : ℕ) → is_symbol_char wide c ≡ true → is_whitespace c ≡ false
  unfolding is_whitespace is_ascii_alphanumeric
  symbol_char-not_whitespace c h = ground (arith, apart c)

  symbol_char-upper :
      (c : ℕ) → is_symbol_char wide c ≡ true → is_symbol_char wide (to_ascii_uppercase c) ≡ true
  unfolding is_ascii_alphanumeric to_ascii_uppercase
  symbol_char-upper c h = ground arith

  pub drop_while-none :
      (s : Text) → all_chars (is_symbol_char wide) s ≡ true → drop_while is_whitespace s ≡ s
  drop_while-none [] h = refl
  drop_while-none (c ∷ s) h =
      let head : is_symbol_char wide c ≡ true = ground arith in
      ground (arith, symbol_char-not_whitespace c head)

  pub trim-same : (s : Text) → all_chars (is_symbol_char wide) s ≡ true → trim s ≡ s
  unfolding trim
  trim-same s h =
      ap (λ x. reverse (drop_while is_whitespace (reverse x))) (drop_while-none s h)
      ∙ ap reverse (drop_while-none (reverse s) (all_chars-reverse_aux _ s [] h refl))
      ∙ reverse-reverse s

  all_chars-upper :
      (s : Text)
      → all_chars (is_symbol_char wide) s ≡ true
      → all_chars (is_symbol_char wide) (map to_ascii_uppercase s) ≡ true
  all_chars-upper [] h = refl
  all_chars-upper (c ∷ s) h =
      let head : is_symbol_char wide c ≡ true = ground arith in
      let tail : all_chars (is_symbol_char wide) s ≡ true = ground arith in
      ground (arith, symbol_char-upper c head, all_chars-upper s tail)

  pub normalize_symbol-eq-ok :
      (s n : Text)
      → normalize_symbol wide s ≡ ok n
      → (is_empty (trim s) ≡ false)
        × (ltb 64 (len (trim s)) ≡ false)
        × (all_chars (is_symbol_char wide) (trim s) ≡ true)
        × (map to_ascii_uppercase (trim s) ≡ n)
  unfolding normalize_symbol
  normalize_symbol-eq-ok s n h = ground (arith, h)

  normalize_symbol-canonical :
      (s : Text)
      → is_empty s ≡ false
      → ltb 64 (len s) ≡ false
      → all_chars (is_symbol_char wide) s ≡ true
      → normalize_symbol wide s ≡ ok (map to_ascii_uppercase s)
  unfolding normalize_symbol
  normalize_symbol-canonical s e l a = ground (arith, trim-same s a)

  is_empty-upper : (s : Text) → is_empty (map to_ascii_uppercase s) ≡ is_empty s
  is_empty-upper [] = refl
  is_empty-upper (c ∷ s) = refl

  -- Where no letter or digit is a space: trimming leaves a normal form as it is,
  pub trim-normal : (s n : Text) → normalize_symbol wide s ≡ ok n → trim n ≡ n
  trim-normal s n h =
      let (some_text, short, chars, upper) = normalize_symbol-eq-ok s n h in
      let all = all_chars-upper (trim s) chars in
      trim-same n (ap (all_chars (is_symbol_char wide)) (sym upper) ∙ all)

  -- Where no letter or digit is a space: the normal form of a symbol is its own normal form.
  pub normalize_symbol-idempotent :
      (s n : Text) → normalize_symbol wide s ≡ ok n → normalize_symbol wide n ≡ ok n
  normalize_symbol-idempotent s n h =
      let (some_text, short, chars, upper) = normalize_symbol-eq-ok s n h in
      let t : Text = map to_ascii_uppercase (trim s) in
      let again =
        normalize_symbol-canonical t (is_empty-upper (trim s) ∙ some_text)
          (ap (ltb 64) (len-upper (trim s)) ∙ short) (all_chars-upper (trim s) chars) in
      ap (normalize_symbol wide) (sym upper) ∙ again ∙ ap ok (upper-upper (trim s) ∙ upper)
