-- ===== src/History/Unique.antt =====
-- src/history.rs: the deduplication of the sorted candles.
use market_stream_gateway.Prelude.{
  ℕ, suc, ◌≤◌, ◌≡◌, ◌↔◌, refl, ap, sym, ◌∙◌, Bool, true, false, ◌||◌, List, [], ◌∷◌, Option, none,
  some, arith, eqb, text_order, ==_refl, Bool-cases, Result-cases, inl, inr, ok,
}
use market_stream_gateway.Domain.Identity.{Provider}
use market_stream_gateway.Domain.Payload.{
  Candle, CandleFinality, DataQuality, DecimalValue, provider_volume_untrusted,
}
use market_stream_gateway.History.Finish.{
  same_candle, same_volume, same_finality, same_quality, push_unique, unique_candles,
}

same_volume_iff : (a b : Option DecimalValue) → (same_volume a b ≡ true) ↔ (a ≡ b)
same_volume_iff none none = ground arith
same_volume_iff none (some b) = ground arith
same_volume_iff (some a) none = ground arith
same_volume_iff (some a) (some b) = ground (arith, text_order.beq_iff a b)

same_finality_iff : (a b : CandleFinality) → (same_finality a b ≡ true) ↔ (a ≡ b)
same_finality_iff a b = ground arith

same_quality_iff : (a b : List DataQuality) → (same_quality a b ≡ true) ↔ (a ≡ b)
same_quality_iff [] [] = ground arith
same_quality_iff [] (y ∷ ys) = ground arith
same_quality_iff (provider_volume_untrusted ∷ xs) [] = ground arith
same_quality_iff (provider_volume_untrusted ∷ xs) (provider_volume_untrusted ∷ ys) =
    ground (arith, same_quality_iff xs ys)

same_candle-eq : (c d : Candle) → same_candle c d ≡ true → c ≡ d
unfolding same_candle
same_candle-eq c d h =
    let e_interval : c.interval ≡ d.interval =
      ground (arith, h, text_order.beq_iff c.interval d.interval) in
    let e_start_time_ms : c.start_time_ms ≡ d.start_time_ms = ground (arith, h) in
    let e_end_time_ms : c.end_time_ms ≡ d.end_time_ms = ground (arith, h) in
    let e_opening : c.opening ≡ d.opening =
      ground (arith, h, text_order.beq_iff c.opening d.opening) in
    let e_high : c.high ≡ d.high = ground (arith, h, text_order.beq_iff c.high d.high) in
    let e_low : c.low ≡ d.low = ground (arith, h, text_order.beq_iff c.low d.low) in
    let e_close : c.close ≡ d.close = ground (arith, h, text_order.beq_iff c.close d.close) in
    let e_base_volume : c.base_volume ≡ d.base_volume =
      ground (arith, h, same_volume_iff c.base_volume d.base_volume) in
    let e_quote_volume : c.quote_volume ≡ d.quote_volume =
      ground (arith, h, same_volume_iff c.quote_volume d.quote_volume) in
    let e_contract_volume : c.contract_volume ≡ d.contract_volume =
      ground (arith, h, same_volume_iff c.contract_volume d.contract_volume) in
    let e_finality : c.finality ≡ d.finality =
      ground (arith, h, same_finality_iff c.finality d.finality) in
    let e_data_quality : c.data_quality ≡ d.data_quality =
      ground (arith, h, same_quality_iff c.data_quality d.data_quality) in
    cc

same_candle_refl : (c : Candle) → same_candle c c ≡ true
unfolding same_candle
same_candle_refl c = ground (
  arith,
  ==_refl c.interval,
  ==_refl c.opening,
  ==_refl c.high,
  ==_refl c.low,
  ==_refl c.close,
  same_volume_iff c.base_volume c.base_volume,
  same_volume_iff c.quote_volume c.quote_volume,
  same_volume_iff c.contract_volume c.contract_volume,
  same_finality_iff c.finality c.finality,
  same_quality_iff c.data_quality c.data_quality,
)

pub same_candle_iff : (c d : Candle) → (same_candle c d ≡ true) ↔ (c ≡ d)
same_candle_iff c d = (same_candle-eq c d, λ e. ap (same_candle c) (sym e) ∙ same_candle_refl c)

-- Is the candle in the list?
abbrev pub has : Candle → List Candle → Bool
has c [] = false
has c (x ∷ xs) = same_candle x c || has c xs

-- Starts that never fall, from a bound on.
abbrev pub Upward : ℕ → List Candle → Type 0
Upward lo [] = Unit
Upward lo (c ∷ cs) = (lo ≤ c.start_time_ms) × Upward c.start_time_ms cs

-- Starts that rise, from a bound on.
abbrev pub Ascending : ℕ → List Candle → Type 0
Ascending lo [] = Unit
Ascending lo (c ∷ cs) = (lo ≤ c.start_time_ms) × Ascending (suc c.start_time_ms) cs

-- No two candles of one start differ.
abbrev pub Agree : List Candle → Type 0
Agree cs =
    (c d : Candle) → has c cs ≡ true → has d cs ≡ true → c.start_time_ms ≡ d.start_time_ms → c ≡ d

Upward-lower :
    (lo : ℕ) (cs : List Candle) (c : Candle) → Upward lo cs → has c cs ≡ true → lo ≤ c.start_time_ms
Upward-lower lo [] c u h = ground arith
Upward-lower lo (x ∷ xs) c u h =
    ground (arith, Upward-lower x.start_time_ms xs c u.1, same_candle_iff x c)

pub Ascending-lower :
    (lo : ℕ) (cs : List Candle) (c : Candle)
    → Ascending lo cs
    → has c cs ≡ true
    → lo ≤ c.start_time_ms
Ascending-lower lo [] c u h = ground arith
Ascending-lower lo (x ∷ xs) c u h =
    ground (arith, Ascending-lower (suc x.start_time_ms) xs c u.1, same_candle_iff x c)

-- What rises has one candle at most for each start.
pub Ascending-Agree : (lo : ℕ) (cs : List Candle) → Ascending lo cs → Agree cs
Ascending-Agree lo [] u c d hc hd e = ground arith
Ascending-Agree lo (x ∷ xs) u c d hc hd e = ground (
  arith,
  Ascending-Agree (suc x.start_time_ms) xs u.1 c d,
  Ascending-lower (suc x.start_time_ms) xs c u.1,
  Ascending-lower (suc x.start_time_ms) xs d u.1,
  same_candle_iff x c,
  same_candle_iff x d,
)

pub record Pushed (previous : Candle) (cs r : List Candle) : Type 0 where
  pub rises : Ascending (suc previous.start_time_ms) r
  pub same : (c : Candle) → has c (previous ∷ r) ≡ has c (previous ∷ cs)

pub push_unique-Pushed :
    (p : Provider) (previous : Candle) (cs r : List Candle)
    → Upward previous.start_time_ms cs
    → push_unique p previous cs ≡ ok r
    → Pushed previous cs r
unfolding push_unique
push_unique-Pushed p previous [] r u h = record { rises = ground arith; same = λ c. ground arith }
push_unique-Pushed p previous (c ∷ cs) r u h =
    elim (Bool-cases (eqb previous.start_time_ms c.start_time_ms)) [
      | inl e ↦
          (let equal : previous ≡ c = ground (arith, e, same_candle_iff previous c) in
            let rest : push_unique p previous cs ≡ ok r = ground (arith, e) in
            let done = push_unique-Pushed p previous cs r (ground (arith, u, e)) rest in
            record {
              rises = done.rises;
              same = λ x. ground (arith, done.same x, ap (λ y. same_candle y x) equal);
            })
      | inr e ↦ elim (Result-cases (push_unique p c cs)) [
        | inl (f, q) ↦ ground (arith, e, q)
        | inr (rest, q) ↦
            (let done = push_unique-Pushed p c cs rest u.1 q in
              let whole : r ≡ c ∷ rest = ground (arith, e, q) in
              record {
                rises = ground (arith, whole, done.rises, u.0, e);
                same = λ x. ground (arith, whole, done.same x);
              })
      ]
    ]

-- The loop fails only on candles that disagree.
pub push_unique-total :
    (p : Provider) (previous : Candle) (cs : List Candle)
    → Upward previous.start_time_ms cs
    → Agree (previous ∷ cs)
    → (r : List Candle) × (push_unique p previous cs ≡ ok r)
unfolding push_unique
push_unique-total p previous [] u a = ([], refl)
push_unique-total p previous (c ∷ cs) u a =
    let tail : Agree (c ∷ cs) = λ x y hx hy. a x y (ground arith) (ground arith) in
    let skip : Agree (previous ∷ cs) = λ x y hx hy. a x y (ground arith) (ground arith) in
    elim (Bool-cases (eqb previous.start_time_ms c.start_time_ms)) [
      | inl e ↦
          (let equal : previous ≡ c =
              a previous c (ground (arith, same_candle_iff previous previous))
                (ground (arith, same_candle_iff c c)) (ground (arith, e)) in
            let done = push_unique-total p previous cs (ground (arith, u, e)) skip in
            (done.0, ground (arith, e, done.1, same_candle_iff previous c, equal)))
      | inr e ↦
          (let done = push_unique-total p c cs u.1 tail in (c ∷ done.0, ground (arith, e, done.1)))
    ]

pub record Deduplicated (cs r : List Candle) : Type 0 where
  pub rises : Ascending 0 r
  pub same : (c : Candle) → has c r ≡ has c cs

pub unique_candles-Deduplicated :
    (p : Provider) (cs r : List Candle)
    → Upward 0 cs
    → unique_candles p cs ≡ ok r
    → Deduplicated cs r
unfolding unique_candles
unique_candles-Deduplicated p [] r u h = record { rises = ground arith; same = λ c. ground arith }
unique_candles-Deduplicated p (c ∷ cs) r u h = elim (Result-cases (push_unique p c cs)) [
  | inl (f, q) ↦ ground (arith, q)
  | inr (rest, q) ↦
      (let done = push_unique-Pushed p c cs rest u.1 q in
        let whole : r ≡ c ∷ rest = ground (arith, q) in
        record {
          rises = ground (arith, whole, done.rises);
          same = λ x. ground (arith, whole, done.same x);
        })
]

pub unique_candles-total :
    (p : Provider) (cs : List Candle)
    → Upward 0 cs
    → Agree cs
    → (r : List Candle) × (unique_candles p cs ≡ ok r)
unfolding unique_candles
unique_candles-total p [] u a = ([], refl)
unique_candles-total p (c ∷ cs) u a =
    let done = push_unique-total p c cs u.1 a in (c ∷ done.0, ground (arith, done.1))
