-- ===== src/Catalog/Timestamps.antt =====
-- src/catalog.rs: a time that is written in digits is read as that time.
use mathlib.Core.List.{reverse, reverse-cons}
use market_stream_gateway.Prelude.{
  ℕ, zero, suc, ◌+◌, ◌-◌, ◌*◌, ◌/◌, ◌%◌, ◌≤◌, ◌<◌, ◌≡◌, refl, sym, ap, ◌∙◌, false, [], ◌∷◌, ◌++◌,
  none, some, arith, Bool-cases, inl, inr, ok, ltb, eqb, max_u64, is_empty, if◌then◌else◌, ◌==◌,
  text_order,
}
use market_stream_gateway.Text.{Text, text, digits, to_string}
use market_stream_gateway.Domain.Identity.{Provider}
use market_stream_gateway.Catalog.Wire.{
  WireScalar, scalar_text, parse_digits, parse_u64, optional_timestamp_ms,
}

-- The numbers of that many digits are below it.
abbrev room : ℕ → ℕ
room zero = 1
room (suc fuel) = 10 * room fuel

parse_digits-append :
    (acc m : ℕ) (s : Text) (d : ℕ)
    → d < 10
    → parse_digits acc s ≡ some m
    → m * 10 + d ≤ max_u64
    → parse_digits acc (s ++ (d + 48) ∷ []) ≡ some (m * 10 + d)
parse_digits-append acc m [] d small h fits =
    let same : acc ≡ m = ground (arith, h) in ground (arith, same)
parse_digits-append acc m (c ∷ s) d small h fits =
    ground (arith, h, parse_digits-append (acc * 10 + (c - 48)) m s d small)

parse_digits-digits :
    (fuel n : ℕ) → n < room fuel → n ≤ max_u64 → parse_digits 0 (reverse (digits fuel n)) ≡ some n
unfolding digits
parse_digits-digits zero n small fits = ground arith
parse_digits-digits (suc fuel) n small fits = elim (Bool-cases (ltb n 10)) [
  | inl e ↦ ground (arith, e)
  | inr e ↦
      (let rest = parse_digits-digits fuel (n / 10) (omega arith) (omega arith) in
        let step =
          parse_digits-append 0 (n / 10) (reverse (digits fuel (n / 10))) (n % 10) (omega arith)
            rest (omega arith) in
        let value : n / 10 * 10 + n % 10 ≡ n = omega arith in
        let shape : reverse (digits (suc fuel) n)
            ≡ reverse (digits fuel (n / 10)) ++ (n % 10 + 48) ∷ [] =
          rw e (reverse-cons (n % 10 + 48) (digits fuel (n / 10))) in
        ap (parse_digits 0) shape ∙ step ∙ ap some value)
]

no_sign : (c n : ℕ) (s : Text) → parse_digits 0 (c ∷ s) ≡ some n → eqb c b'+' ≡ false
no_sign c n s h = ground (arith, h)

parse_u64-digits :
    (s : Text) (n : ℕ) → is_empty s ≡ false → parse_digits 0 s ≡ some n → parse_u64 s ≡ some n
unfolding parse_u64
parse_u64-digits [] n e h = cc
parse_u64-digits (c ∷ []) n e h = ground (arith, no_sign c n [] h, h)
parse_u64-digits (c ∷ d ∷ s) n e h = ground (arith, no_sign c n (d ∷ s) h, h)

append-not_empty : (s : Text) (c : ℕ) → is_empty (s ++ c ∷ []) ≡ false
append-not_empty [] c = refl
append-not_empty (d ∷ s) c = refl

reverse-not_empty : (c : ℕ) (s : Text) → is_empty (reverse (c ∷ s)) ≡ false
reverse-not_empty c s = ap is_empty (reverse-cons c s) ∙ append-not_empty (reverse s) c

to_string-not_empty : (n : ℕ) → is_empty (to_string n) ≡ false
unfolding to_string digits
to_string-not_empty n = elim (Bool-cases (ltb n 10)) [
  | inl e ↦ rw e (reverse-not_empty (n + 48) [])
  | inr e ↦ rw e (reverse-not_empty (n % 10 + 48) (digits 19 (n / 10)))
]

-- A 64-bit number that is written out is read again.
pub parse_u64-to_string : (n : ℕ) → n ≤ max_u64 → parse_u64 (to_string n) ≡ some n
unfolding to_string
parse_u64-to_string n fits =
    parse_u64-digits (to_string n) n (to_string-not_empty n)
      (parse_digits-digits 20 n (omega arith) fits)

zero_text : to_string 0 ≡ text "0"
unfolding to_string digits text
zero_text = refl

to_string-zero_iff : (n : ℕ) → n ≤ max_u64 → (to_string n == text "0") ≡ eqb n 0
to_string-zero_iff n fits = elim (Bool-cases (to_string n == text "0")) [
  | inl e ↦
      (let same = text_order.beq_iff (to_string n) (text "0") in
        let read =
          sym (parse_u64-to_string n fits)
          ∙ ap parse_u64 (same.0 e ∙ sym zero_text)
          ∙ parse_u64-to_string 0 (omega arith) in
        let zero_n : n ≡ 0 = ground (arith, read) in ground (arith, e, zero_n))
  | inr e ↦ elim (Bool-cases (eqb n 0)) [
    | inr q ↦ e ∙ sym q
    | inl q ↦
        (let zero_n : n ≡ 0 = ground (arith, q) in
          let same =
            (text_order.beq_iff (to_string n) (text "0")).1 (ap to_string zero_n ∙ zero_text) in
          ground (arith, e, same))
  ]
]

-- A time in milliseconds that fits 64 bits, written out as a number or as a string, is read as that
-- time, and zero as none.
pub optional_timestamp_ms-to_string :
    (p : Provider) (field : Text) (n : ℕ) (scalar : WireScalar)
    → scalar_text scalar ≡ to_string n
    → n ≤ max_u64
    → optional_timestamp_ms p field (some scalar) ≡ ok (if eqb n 0 then none else some n)
unfolding optional_timestamp_ms
optional_timestamp_ms-to_string p field n scalar written fits =
    rw written
      (ground (arith, parse_u64-to_string n fits, to_string-not_empty n, to_string-zero_iff n fits))
