-- ===== src/Api/Volumes.antt =====
-- src/api.rs: what `enrich_history_volumes` does to a result.
use market_stream_gateway.Prelude.{
  ◌≡◌, ◌≢◌, ◌⊎◌, sym, ap, ◌∙◌, subst, List, [], ◌∷◌, none, some, Option, arith, Bool-cases,
  Option-cases, inl, inr, Result, ok, err, ◌>>=◌, >>=-eq-ok, ◌==◌, if◌then◌else◌, text_order,
}
use market_stream_gateway.Text.{Text}
use market_stream_gateway.Domain.Identity.{provider_order, mexc}
use market_stream_gateway.Domain.Payload.{DecimalValue, new_decimal, validate_candle}
use market_stream_gateway.Domain.Symbol.{DomainError}
use market_stream_gateway.History.Finish.{HistoryResult, HistoryCandle}
use market_stream_gateway.Catalog.Instrument.{Instrument}
use market_stream_gateway.Api.Requests.{
  convert_row, shown, contract_size, VolumeDecimals, ok_or, enrich_row, enrich_rows,
  enrich_history_volumes,
}

ok_or-eq-ok :
    {A : Type 0} (message : Text) (o : Option A) (a : A) → ok_or message o ≡ ok a → o ≡ some a
ok_or-eq-ok message none a h = cc
ok_or-eq-ok message (some b) a h = ground (arith, h)

module _ {D : Type 0} (w : VolumeDecimals D) (size : D) where
  -- The volume in the base asset is the contracts times the contract size.
  pub record IsConverted (row row' : HistoryCandle) : Type 0 where
    pub contract_text : Text
    pub contracts : D
    pub volume : D
    pub given : row.candle.contract_volume ≡ some contract_text
    pub read : w.decimals.from_str contract_text ≡ some contracts
    pub product : w.checked_mul contracts size ≡ some volume
    pub converted : row' ≡ record row {
      candle = record (row.candle) { base_volume = some (w.show_normalized volume) };
    }
    pub valid : validate_candle w.decimals row'.candle ≡ ok tt

  -- A row with a volume is kept, one without is converted.
  abbrev pub IsEnrichedBy : Option DecimalValue → HistoryCandle → HistoryCandle → Type 0
  IsEnrichedBy none row row' = IsConverted row row'
  IsEnrichedBy (some v) row row' = row' ≡ row

  abbrev pub IsEnriched : HistoryCandle → HistoryCandle → Type 0
  IsEnriched row row' = IsEnrichedBy row.candle.base_volume row row'

  abbrev pub AllEnriched : List HistoryCandle → List HistoryCandle → Type 0
  AllEnriched [] [] = Unit
  AllEnriched [] (y ∷ ys) = ⊥
  AllEnriched (x ∷ xs) [] = ⊥
  AllEnriched (x ∷ xs) (y ∷ ys) = IsEnriched x y × AllEnriched xs ys

  new_decimal-eq-ok : (s v : Text) → new_decimal w.decimals s ≡ ok v → v ≡ s
  unfolding new_decimal
  new_decimal-eq-ok s v h = ground (arith, h)

  shown-eq-ok {ℓ} : {A : Type ℓ} (r : Result A DomainError) (a : A) → shown r ≡ ok a → r ≡ ok a
  shown-eq-ok (ok b) a h = ground (arith, h)
  shown-eq-ok (err e) a h = cc

  convert_row-IsConverted :
      (row row' : HistoryCandle) → convert_row w size row ≡ ok row' → IsConverted row row'
  unfolding convert_row
  convert_row-IsConverted row row' h =
      let a = >>=-eq-ok (ok_or _ row.candle.contract_volume) _ h in
      let b = >>=-eq-ok (ok_or _ (w.decimals.from_str a.0)) _ a.2 in
      let c = >>=-eq-ok (ok_or _ (w.checked_mul b.0 size)) _ b.2 in
      let d = >>=-eq-ok (shown (new_decimal w.decimals (w.show_normalized c.0))) _ c.2 in
      let e =
        >>=-eq-ok
          (shown (validate_candle w.decimals (record (row.candle) { base_volume = some d.0 }))) _
          d.2 in
      let value = new_decimal-eq-ok _ d.0 (shown-eq-ok _ d.0 d.1) in
      let final : record row { candle = record (row.candle) { base_volume = some d.0 } } ≡ row' =
        ground (arith, e.2) in
      record {
        contract_text = a.0;
        contracts = b.0;
        volume = c.0;
        given = ok_or-eq-ok _ _ a.0 a.1;
        read = ok_or-eq-ok _ _ b.0 b.1;
        product = ok_or-eq-ok _ _ c.0 c.1;
        converted =
            sym final
            ∙ ap (λ v. record row { candle = record (row.candle) { base_volume = some v } }) value;
        valid = ap (λ r. validate_candle w.decimals r.candle) (sym final) ∙ shown-eq-ok _ e.0 e.1;
      }

  enrich_row-IsEnriched :
      (row row' : HistoryCandle) → enrich_row w size row ≡ ok row' → IsEnriched row row'
  unfolding enrich_row
  enrich_row-IsEnriched row row' h = elim (Option-cases row.candle.base_volume) [
    | inr (v, e) ↦ subst (λ o. IsEnrichedBy o row row') (sym e) (ground (arith, e, h))
    | inl e ↦
        subst (λ o. IsEnrichedBy o row row') (sym e)
          (convert_row-IsConverted row row' (ground (arith, e, h)))
  ]

  enrich_rows-AllEnriched :
      (rows rows' : List HistoryCandle)
      → enrich_rows w size rows ≡ ok rows'
      → AllEnriched rows rows'
  unfolding enrich_rows
  enrich_rows-AllEnriched [] rows' h = subst (AllEnriched []) {x = []} (ground (arith, h)) tt
  enrich_rows-AllEnriched (row ∷ rows) rows' h =
      let a = >>=-eq-ok (enrich_row w size row) _ h in
      let b = >>=-eq-ok (enrich_rows w size rows) _ a.2 in
      subst (AllEnriched (row ∷ rows)) {x = a.0 ∷ b.0} (ground (arith, b.2))
        (enrich_row-IsEnriched row a.0 a.1, enrich_rows-AllEnriched rows b.0 b.1)

contract_size-eq-ok :
    {D : Type 0} (w : VolumeDecimals D) (i : Instrument) (size : D)
    → contract_size w i ≡ ok size
    → (size_text : Text) × (i.contract_size ≡ some size_text)
      × (i.contract_size_asset ≡ some i.base_asset)
      × (w.decimals.from_str size_text ≡ some size)
unfolding contract_size
contract_size-eq-ok w i size h =
    let a = >>=-eq-ok (ok_or _ i.contract_size) _ h in
    let b =
      >>=-eq-ok
        (ok_or _ (elim i.contract_size_asset [
          | none ↦ none
          | some x ↦ if x == i.base_asset then some x else none
        ]))
        _ a.2 in
    let asset : i.contract_size_asset ≡ some i.base_asset =
      elim (Option-cases i.contract_size_asset) [
        | inl e ↦ ground (arith, b.1, e)
        | inr (x, e) ↦ ground (arith, b.1, e, text_order.beq_iff x i.base_asset)
      ] in
    (a.0, ok_or-eq-ok _ _ a.0 a.1, asset, ok_or-eq-ok _ _ size b.2)

-- A result of a provider other than MEXC is enriched to itself. A result of MEXC that is enriched
-- keeps its identity, its range and the number and order of its candles; the instrument has a
-- contract size in its base asset; a candle with a volume in the base asset is kept as it is, and
-- to one without, the product of its contract volume and the contract size is added, and the candle
-- is then valid.
pub enrich_history_volumes-Enriched :
    {D : Type 0} (w : VolumeDecimals D) (result result' : HistoryResult) (i : Instrument)
    → enrich_history_volumes w result i ≡ ok result'
    → ((result.provider ≢ mexc) × (result' ≡ result))
      ⊎ ((result.provider ≡ mexc)
          × (i.contract_size_asset ≡ some i.base_asset)
          × ((size_text : Text) × (size : D) × (i.contract_size ≡ some size_text)
              × (w.decimals.from_str size_text ≡ some size)
              × (result' ≡ record result { candles = result'.candles })
              × AllEnriched w size result.candles result'.candles))
unfolding enrich_history_volumes
enrich_history_volumes-Enriched w result result' i h = elim (Bool-cases (result.provider == mexc)) [
  | inr e ↦
      inl (
        (λ q. ground (arith, e, provider_order.beq_iff result.provider mexc)),
        ground (arith, e, h),
      )
  | inl e ↦
      (let chain : (contract_size w i >>= λ size.
      enrich_rows w size result.candles >>= λ rows. ok (record result { candles = rows }))
            ≡ ok result' =
          ground (arith, e, h) in
        let a = >>=-eq-ok (contract_size w i) _ chain in
        let b = >>=-eq-ok (enrich_rows w a.0 result.candles) _ a.2 in
        let done : record result { candles = b.0 } ≡ result' = ground (arith, b.2) in
        let rows = enrich_rows-AllEnriched w a.0 result.candles b.0 b.1 in
        let (size_text, given, asset, read) = contract_size-eq-ok w i a.0 a.1 in
        inr (
          (provider_order.beq_iff result.provider mexc).0 e,
          asset,
          (
            size_text,
            a.0,
            given,
            read,
            sym done ∙ ap (λ r. record result { candles = r.candles }) done,
            subst (λ r. AllEnriched w a.0 result.candles r.candles) done rows,
          ),
        ))
]
