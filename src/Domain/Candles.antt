-- ===== src/Domain/Candles.antt =====
-- src/domain.rs: which candles `Candle::validate` accepts.
use market_stream_gateway.Prelude.{
  text_order, ◌+◌, ◌≡◌, ◌↔◌, Bool, true, false, not, ◌&&◌, ◌||◌, [], ◌∷◌, Option, none, some, arith,
  ok, Option-cases, inl, inr,
}
use market_stream_gateway.Text.{Text, text}
use market_stream_gateway.Domain.Payload.{
  Decimals, DecimalValue, Candle, decimal, check_bounds, check_volumes, validate_candle,
}

module _ {D : Type 0} (dec : Decimals D) where
  -- The text is a decimal number with the given value.
  abbrev pub Reads : Text → D → Type 0
  Reads s d = dec.from_str s ≡ some d

  -- A volume that is given is a decimal number, and not negative.
  abbrev pub is_volume : Option DecimalValue → Bool
  is_volume none = true
  is_volume (some v) = elim (dec.from_str v) [ none ↦ false | some d ↦ not (dec.lt d dec.zero) ]

  pub record IsCandle (c : Candle) : Type 0 where
    pub opening : D
    pub high : D
    pub low : D
    pub close : D
    pub reads_opening : Reads c.opening opening
    pub reads_high : Reads c.high high
    pub reads_low : Reads c.low low
    pub reads_close : Reads c.close close
    pub interval : c.interval ≡ text "1m"
    pub minute : c.end_time_ms ≡ c.start_time_ms + 60_000
    pub positive :
        (dec.lt dec.zero opening
          && dec.lt dec.zero high
          && dec.lt dec.zero low
          && dec.lt dec.zero close)
        ≡ true
    pub below_high : (dec.lt high opening || dec.lt high close || dec.lt high low) ≡ false
    pub above_low : (dec.lt opening low || dec.lt close low) ≡ false
    pub volumes :
        (is_volume c.base_volume && is_volume c.quote_volume && is_volume c.contract_volume) ≡ true

  check_volumes_iff :
      (a b c : Option DecimalValue)
      → (check_volumes dec (a ∷ b ∷ c ∷ []) ≡ ok tt)
        ↔ ((is_volume a && is_volume b && is_volume c) ≡ true)
  unfolding check_volumes decimal
  check_volumes_iff a b c = ground arith

  -- `Candle::validate` accepts every candle that covers exactly one minute, whose prices are
  -- positive decimal numbers with the low at most and the high at least every other, and whose
  -- volumes are decimal numbers that are not negative.
  pub validate_candle-accepts : (c : Candle) → IsCandle c → validate_candle dec c ≡ ok tt
  unfolding validate_candle decimal check_bounds
  validate_candle-accepts c v = ground (
    arith,
    text_order.beq_iff c.interval (text "1m"),
    check_volumes_iff c.base_volume c.quote_volume c.contract_volume,
  )

  -- What the checks leave of the minute, the prices and the volumes.
  abbrev CheckedMinute : Candle → Type 0
  CheckedMinute c = (c.interval ≡ text "1m") × (c.end_time_ms ≡ c.start_time_ms + 60_000)

  abbrev CheckedPrices : D → D → D → D → Type 0
  CheckedPrices o h l k =
      ((dec.lt dec.zero o && dec.lt dec.zero h && dec.lt dec.zero l && dec.lt dec.zero k) ≡ true)
      × ((dec.lt h o || dec.lt h k || dec.lt h l) ≡ false)
      × ((dec.lt o l || dec.lt k l) ≡ false)

  abbrev CheckedVolumes : Candle → Type 0
  CheckedVolumes c =
      (is_volume c.base_volume && is_volume c.quote_volume && is_volume c.contract_volume) ≡ true

  -- A candle that `Candle::validate` accepts covers exactly one minute, its prices are positive
  -- decimal numbers with the low at most and the high at least every other, and the volumes it has
  -- are decimal numbers that are not negative.
  pub validate_candle-accepted : (c : Candle) → validate_candle dec c ≡ ok tt → IsCandle c
  unfolding validate_candle decimal check_bounds
  validate_candle-accepted c h = elim (Option-cases (dec.from_str c.opening)) [
    | inl e ↦ ground (arith, e)
    | inr (o, eo) ↦ elim (Option-cases (dec.from_str c.high)) [
      | inl e ↦ ground (arith, e, eo)
      | inr (x, ex) ↦ elim (Option-cases (dec.from_str c.low)) [
        | inl e ↦ ground (arith, e, eo, ex)
        | inr (l, el) ↦ elim (Option-cases (dec.from_str c.close)) [
          | inl e ↦ ground (arith, e, eo, ex, el)
          | inr (k, ek) ↦
              let checked : CheckedMinute c × CheckedPrices o x l k × CheckedVolumes c = ground (
                arith,
                h,
                eo,
                ex,
                el,
                ek,
                text_order.beq_iff c.interval (text "1m"),
                check_volumes_iff c.base_volume c.quote_volume c.contract_volume,
              ) in
              record {
                opening = o;
                high = x;
                low = l;
                close = k;
                reads_opening = eo;
                reads_high = ex;
                reads_low = el;
                reads_close = ek;
                interval = checked.0.0;
                minute = checked.0.1;
                positive = checked.1.0;
                below_high = checked.1.1;
                above_low = checked.1.2;
                volumes = checked.2;
              }
        ]
      ]
    ]
  ]
