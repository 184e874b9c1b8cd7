-- ===== src/Catalog/Validation.antt =====
-- src/catalog.rs: which subscriptions a catalog allows.
use market_stream_gateway.Prelude.{
  ℕ, ◌≡◌, ◌↔◌, refl, subst, sym, ◌∙◌, ap, Bool, true, false, List, [], ◌∷◌, none, some, Option,
  arith, ok, Option-cases, Bool-cases, inl, inr, text_order, ◌==◌, All,
}
use market_stream_gateway.Text.{Text, is_whitespace}
use market_stream_gateway.Map.{lookup}
use market_stream_gateway.Domain.Identity.{
  Provider, instrument_id, SubscriptionKey, MarketKind, linear_perpetual, provider_order,
}
use market_stream_gateway.Domain.Symbol.{normalize_symbol, trim}
use market_stream_gateway.Domain.Normal.{trim-normal, normalize_symbol-idempotent}
use market_stream_gateway.Catalog.Instrument.{Instrument, supports}
use market_stream_gateway.Catalog.Wire.{WireDecimals}
use market_stream_gateway.Catalog.Pages.{Instruments}
use market_stream_gateway.Catalog.Store.{
  Catalog, ProviderSnapshot, validate_subscription, get_instrument, find_symbol, is_enabled,
  or_normalized,
}
use market_stream_gateway.Catalog.Refresh.{Reach, Reach-Inv, Inv-IsSnapshot}

All-lookup :
    (P : Text × Instrument → Type 0) (m : Instruments) (s : Text) (i : Instrument)
    → All P m
    → lookup s m ≡ some i
    → P (s, i)
unfolding lookup
All-lookup P [] s i h q = cc
All-lookup P ((t, j) ∷ m) s i h q = elim (Bool-cases (t == s)) [
  | inl e ↦ let same : j ≡ i = ground arith in subst P (ground (arith, text_order.beq_iff t s)) h.0
  | inr e ↦ All-lookup P m s i h.1 (ground arith)
]

or_normalized-same : (o : Option Instrument) → or_normalized o o ≡ o
or_normalized-same none = refl
or_normalized-same (some i) = refl

module _ (wide : ℕ → Bool) (apart : (c : ℕ) → wide c ≡ true → is_whitespace c ≡ false) where
  -- A symbol in normal form is looked up as it stands.
  find_symbol-normal :
      (m : Instruments) (s n : Text)
      → normalize_symbol wide s ≡ ok n
      → find_symbol wide m (trim n) ≡ lookup n m
  find_symbol-normal m s n h =
      let same = trim-normal wide apart s n h in
      let again = normalize_symbol-idempotent wide apart s n h in
      rw (same, again) (or_normalized-same (lookup n m))

  -- What a catalog has under a symbol in normal form.
  get_instrument-normal :
      (c : Catalog) (p : Provider) (market : MarketKind) (symbol : Text) (s : ProviderSnapshot)
      (raw : Text)
      → normalize_symbol wide raw ≡ ok symbol
      → lookup p c.providers ≡ some s
      → get_instrument wide c p market symbol ≡ lookup symbol s.instruments
  unfolding get_instrument
  get_instrument-normal c p linear_perpetual symbol s raw h found =
      rw (found, get_instrument) (find_symbol-normal s.instruments raw symbol h)

  -- Where no letter or digit is a space: in every catalog that refreshes reach, a subscription to a
  -- key whose symbol is a normal form is allowed with instrument `i` exactly if the provider is
  -- enabled, has `i` listed under the key's symbol, and `i` supports the key's channel.
  pub validate_subscription_lem :
      {D : Type 0} (w : WireDecimals D) (enabled : List Provider) (c : Catalog)
      (k : SubscriptionKey) (raw : Text) (i : Instrument)
      → Reach w wide enabled c
      → normalize_symbol wide raw ≡ ok k.symbol
      → (validate_subscription wide c k ≡ ok i) ↔ (
          (is_enabled c.enabled_providers k.provider ≡ true)
          × ((s : ProviderSnapshot) × (lookup k.provider c.providers ≡ some s)
              × (lookup k.symbol s.instruments ≡ some i))
          × (supports i.capabilities k.channel ≡ true))
  unfolding validate_subscription
  validate_subscription_lem w enabled c k raw i r h =
      let (s, found, v) = Inv-IsSnapshot wide c k.provider (Reach-Inv w wide enabled c r) in
      let got = get_instrument-normal c k.provider k.market k.symbol s raw h found in
      (
        λ q. elim (Option-cases (get_instrument wide c k.provider k.market k.symbol)) [
          | inl e ↦ ground (arith, q, e)
          | inr (j, e) ↦
              (let facts : (is_enabled c.enabled_providers k.provider ≡ true)
                    × (j ≡ i)
                    × (supports j.capabilities k.channel ≡ true) =
                  ground (arith, q, e) in
                (
                  facts.0,
                  (s, found, sym got ∙ e ∙ ap some facts.1),
                  subst (λ x. supports x.capabilities k.channel ≡ true) facts.1 facts.2,
                ))
        ],
        λ (on, (s', found', listed), channel).
            ground (arith, on, found, found', listed, channel, got),
      )

  -- Where no letter or digit is a space: what a catalog that refreshes reach answers for a key
  -- whose symbol is a normal form is the instrument of the key: of its provider, under its symbol,
  -- with the id made of both.
  pub validate_subscription-instrument :
      {D : Type 0} (w : WireDecimals D) (enabled : List Provider) (c : Catalog)
      (k : SubscriptionKey) (raw : Text) (i : Instrument)
      → Reach w wide enabled c
      → normalize_symbol wide raw ≡ ok k.symbol
      → validate_subscription wide c k ≡ ok i
      → (i.provider ≡ k.provider)
        × (i.symbol ≡ k.symbol)
        × (i.id ≡ instrument_id k.provider linear_perpetual k.symbol)
  validate_subscription-instrument w enabled c k raw i r h q =
      let (s, found, v) = Inv-IsSnapshot wide c k.provider (Reach-Inv w wide enabled c r) in
      let (on, (s', found', listed), channel) =
        (validate_subscription_lem w enabled c k raw i r h).0 q in
      let same : s' ≡ s = ground (arith, found, found') in
      let here = ap (λ x. lookup k.symbol x.instruments) (sym same) ∙ listed in
      let (symbol, made) = All-lookup _ s.instruments k.symbol i v.listing.filed here in
      (made.provider, symbol, made.id ∙ ap (instrument_id k.provider linear_perpetual) symbol)
