-- ===== src/Domain/Trimming.antt =====
-- src/domain.rs: which texts name a symbol, and which symbol they name.
use mathlib.Core.List.{reverse, reverse-append, reverse-reverse}
use market_stream_gateway.Prelude.{
  ℕ, ◌≡◌, ◌≤◌, ◌↔◌, ◌⊎◌, ◌-◌, ◌&&◌, leb, if◌then◌else◌, All, refl, sym, ap, ◌∙◌, Bool, true, false,
  [], ◌∷◌, ◌++◌, arith, map, ok, is_empty, Bool-cases, inl, inr, ◌≢◌,
}
use market_stream_gateway.Text.{Text, len, is_whitespace, is_ascii_alphanumeric, to_ascii_uppercase}
use market_stream_gateway.Domain.Symbol.{
  drop_while, trim, all_chars, is_symbol_char, normalize_symbol,
}
use market_stream_gateway.Domain.Normal.{
  all_chars-reverse_aux, drop_while-none, normalize_symbol-eq-ok,
}

-- A digit, an ASCII letter, one of `-`, `_` and `.`, or a letter or digit beyond ASCII.
abbrev pub IsSymbolChar : (ℕ → Bool) → ℕ → Type 0
IsSymbolChar wide c =
    ((48 ≤ c) × (c ≤ 57))
    ⊎ ((65 ≤ c) × (c ≤ 90))
    ⊎ ((97 ≤ c) × (c ≤ 122))
    ⊎ ((c ≡ 45) ⊎ (c ≡ 95) ⊎ (c ≡ 46))
    ⊎ ((128 ≤ c) × (wide c ≡ true))

-- The capital of an ASCII letter, and any other character itself.
abbrev pub capital : ℕ → ℕ
capital c = if leb 97 c && leb c 122 then c - 32 else c

-- `s` is a text `t` between spaces, `t` not empty, of at most 64 bytes and of such characters, and
-- `n` is `t` in capitals.
abbrev pub IsNormalOf : (ℕ → Bool) → Text → Text → Type 0
IsNormalOf wide s n =
    (front : Text) × (t : Text) × (back : Text) × (s ≡ front ++ (t ++ back))
    × (all_chars is_whitespace front ≡ true)
    × (all_chars is_whitespace back ≡ true)
    × (t ≢ [])
    × (len t ≤ 64)
    × All (IsSymbolChar wide) t
    × (n ≡ map capital t)

module _ (p : ℕ → Bool) where
  drop_while-split :
      (s : Text) → (front : Text) × (s ≡ front ++ drop_while p s) × (all_chars p front ≡ true)
  drop_while-split [] = ([], refl, refl)
  drop_while-split (c ∷ s) = elim (Bool-cases (p c)) [
    | inr e ↦ ([], ground (arith, e), refl)
    | inl e ↦
        (let rest = drop_while-split s in
          (c ∷ rest.0, ground (arith, e, rest.1), ground (arith, e, rest.2)))
  ]

  drop_while-front :
      (front s : Text) → all_chars p front ≡ true → drop_while p (front ++ s) ≡ drop_while p s
  drop_while-front [] s h = refl
  drop_while-front (c ∷ front) s h = ground (arith, h, drop_while-front front s)

  all_chars-reverse : (s : Text) → all_chars p s ≡ true → all_chars p (reverse s) ≡ true
  all_chars-reverse s h = all_chars-reverse_aux p s [] h refl

-- The text that is trimmed stands between spaces.
trim-split :
    (s : Text)
    → (front : Text) × (back : Text) × (s ≡ front ++ (trim s ++ back))
      × (all_chars is_whitespace front ≡ true)
      × (all_chars is_whitespace back ≡ true)
unfolding trim
trim-split s =
    let (front, split, white) = drop_while-split is_whitespace s in
    let rest = drop_while is_whitespace s in
    let (tail, split', white') = drop_while-split is_whitespace (reverse rest) in
    let kept = drop_while is_whitespace (reverse rest) in
    let back : rest ≡ reverse kept ++ reverse tail =
      sym (reverse-reverse rest) ∙ ap reverse split' ∙ reverse-append tail kept in
    (
      front,
      reverse tail,
      split ∙ ap (λ x. front ++ x) back,
      white,
      all_chars-reverse is_whitespace tail white',
    )

module _ (wide : ℕ → Bool) (apart : (c : ℕ) → wide c ≡ true → is_whitespace c ≡ false) where
  drop_while-stops :
      (t back : Text)
      → is_empty t ≡ false
      → all_chars (is_symbol_char wide) t ≡ true
      → drop_while is_whitespace (t ++ back) ≡ t ++ back
  drop_while-stops [] back e h = ground (arith, e)
  drop_while-stops (c ∷ t) back e h =
      ground (arith, drop_while-none wide apart (c ∷ []) (ground (arith, h)))

  -- Letters, digits and marks between spaces are what is left.
  trim-between :
      (front t back : Text)
      → all_chars is_whitespace front ≡ true
      → all_chars is_whitespace back ≡ true
      → is_empty t ≡ false
      → all_chars (is_symbol_char wide) t ≡ true
      → trim (front ++ (t ++ back)) ≡ t
  unfolding trim
  trim-between front t back hf hb e h =
      ap (λ x. reverse (drop_while is_whitespace (reverse x)))
        (drop_while-front is_whitespace front (t ++ back) hf ∙ drop_while-stops t back e h)
      ∙ ap (λ x. reverse (drop_while is_whitespace x)) (reverse-append t back)
      ∙ ap reverse (
          drop_while-front is_whitespace (reverse back) (reverse t)
            (all_chars-reverse is_whitespace back hb)
          ∙ drop_while-none wide apart (reverse t) (all_chars-reverse _ t h))
      ∙ reverse-reverse t

  is_symbol_char_lem : (c : ℕ) → (is_symbol_char wide c ≡ true) ↔ IsSymbolChar wide c
  unfolding is_ascii_alphanumeric
  is_symbol_char_lem c = (λ h. ground (arith, h), λ h. ground (arith, h))

  all_chars-IsSymbolChar :
      (t : Text) → (all_chars (is_symbol_char wide) t ≡ true) ↔ All (IsSymbolChar wide) t
  all_chars-IsSymbolChar [] = (λ h. tt, λ h. refl)
  all_chars-IsSymbolChar (c ∷ t) = (
    λ h. (
      (is_symbol_char_lem c).0 (ground (arith, h)),
      (all_chars-IsSymbolChar t).0 (ground (arith, h)),
    ),
    λ h. ground (arith, (is_symbol_char_lem c).1 h.0, (all_chars-IsSymbolChar t).1 h.1),
  )

  upper-capital : (t : Text) → map to_ascii_uppercase t ≡ map capital t
  unfolding to_ascii_uppercase
  upper-capital [] = refl
  upper-capital (c ∷ t) = ground (arith, upper-capital t)

  -- Where no letter or digit is a space: a text has the normal form `n` exactly if it is some text
  -- between spaces, that text is not empty, has at most 64 bytes and only letters, digits and the
  -- marks `-`, `_` and `.`, and `n` is that text with its ASCII letters in capitals.
  pub normalize_symbol_lem : (s n : Text) → (normalize_symbol wide s ≡ ok n) ↔ IsNormalOf wide s n
  unfolding normalize_symbol
  normalize_symbol_lem s n = (
    λ h.
        let (some_text, short, chars, upper) = normalize_symbol-eq-ok wide apart s n h in
        let (front, back, split, white, white') = trim-split s in
        (
          front,
          trim s,
          back,
          split,
          white,
          white',
          λ e. ground (arith, ap is_empty e, some_text),
          ground (arith, short),
          (all_chars-IsSymbolChar (trim s)).0 chars,
          sym upper ∙ upper-capital (trim s),
        ),
    λ (front, t, back, split, white, white', some_text, short, allowed, upper).
        let chars = (all_chars-IsSymbolChar t).1 allowed in
        let some_t : is_empty t ≡ false = not_empty t some_text in
        let same : trim s ≡ t =
          ap trim split ∙ trim-between front t back white white' some_t chars in
        ground (arith, same, some_t, short, chars, upper, upper-capital t),
  )
    where
      not_empty : (t : Text) → t ≢ [] → is_empty t ≡ false
      not_empty [] h = absurd (h refl)
      not_empty (c ∷ t) h = refl
