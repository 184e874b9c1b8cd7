-- ===== src/Catalog/Pages.antt =====
-- src/catalog.rs: whole listings. A body is given as what the JSON library makes of it, or its
-- complaint; the pages of Bybit are an argument, by the cursor they are asked for.
use market_stream_gateway.Prelude.{
  ℕ, zero, suc, Bool, true, false, not, ◌||◌, List, [], ◌∷◌, ◌++◌, Option, none, some,
  if◌then◌else◌, is_empty, Result, ok, err, ◌>>=◌, ◌>>◌, refuse_if, ◌==◌, text_order, ℤ, is_number,
}
use market_stream_gateway.Text.{Text, text}
use market_stream_gateway.Set
use market_stream_gateway.Set.{contains}
use market_stream_gateway.Map.{lookup}
use market_stream_gateway.Map.Ordered.{insert_ordered}
use market_stream_gateway.Domain.Identity.{Provider, bybit, binance, okx, kucoin, mexc, bingx}
use market_stream_gateway.Catalog.Instrument.{
  Instrument, CatalogError, invalid_payload, duplicate_instrument, repeated_cursor,
  pagination_limit,
}
use market_stream_gateway.Catalog.Wire.{WireDecimals, show_int}
use market_stream_gateway.Catalog.Rows.Bybit.{BybitInstrument, bybit_instrument}
use market_stream_gateway.Catalog.Rows.Binance.{BinanceInstrument, binance_instrument}
use market_stream_gateway.Catalog.Rows.Okx.{OkxInstrument, okx_instrument}
use market_stream_gateway.Catalog.Rows.Kucoin.{KucoinInstrument, kucoin_instrument}
use market_stream_gateway.Catalog.Rows.Mexc.{MexcInstrument, mexc_instrument}
use market_stream_gateway.Catalog.Rows.Bingx.{BingxInstrument, bingx_instrument}

-- `BTreeMap<String, Instrument>`, in the order of the symbols.
abbrev pub Instruments : Type 0
Instruments = List (Text × Instrument)

unfoldable pub insert_unique : Instruments → Instrument → Result Instruments CatalogError
insert_unique m i = elim (lookup i.symbol m) [
  | some old ↦ err (duplicate_instrument i.provider i.symbol)
  | none ↦ ok (insert_ordered i.symbol i m)
]

-- The loop over the rows of a listing.
unfoldable pub collect_rows {ℓ} :
    {A : Type ℓ}
    → (A → Result (Option Instrument) CatalogError)
    → Instruments
    → List A
    → Result Instruments CatalogError
collect_rows row m [] = ok m
collect_rows row m (item ∷ items) = do
  made ← row item
  elim made [
    | none ↦ collect_rows row m items
    | some i ↦ insert_unique m i >>= λ m'. collect_rows row m' items
  ]

abbrev pub from_json {ℓ} : {A : Type ℓ} → Provider → Result A Text → Result A CatalogError
from_json p (ok a) = ok a
from_json p (err complaint) = err (invalid_payload p (text "invalid JSON: " ++ complaint))

abbrev pub or_missing {ℓ} : {A : Type ℓ} → Provider → Text → Option A → Result A CatalogError
or_missing p message none = err (invalid_payload p message)
or_missing p message (some a) = ok a

pub record BybitResult : Type 0 where
  pub category : Text
  pub next_page_cursor : Text
  pub list : List BybitInstrument

pub record BybitEnvelope : Type 0 where
  pub ret_code : ℤ
  pub ret_msg : Text
  pub result : Option BybitResult

pub record BybitPage : Type 0 where
  pub instruments : List Instrument
  pub next_page_cursor : Text

pub record OkxEnvelope : Type 0 where
  pub code : Text
  pub msg : Text
  pub data_rows : List OkxInstrument

pub data OneOrMany {ℓ} (A : Type ℓ) : Type ℓ where
  one : A → OneOrMany A
  many : List A → OneOrMany A

unfoldable pub into_vec {ℓ} : {A : Type ℓ} → OneOrMany A → List A
into_vec (one item) = item ∷ []
into_vec (many items) = items

pub record KucoinEnvelope : Type 0 where
  pub code : Text
  pub data_rows : Option (OneOrMany KucoinInstrument)

pub record MexcEnvelope : Type 0 where
  pub success : Bool
  pub code : ℤ
  pub data_rows : Option (OneOrMany MexcInstrument)

pub record BingxEnvelope : Type 0 where
  pub code : ℤ
  pub msg : Text
  pub data_rows : List BingxInstrument

-- `filter_map` and `collect` of a page.
unfoldable pub page_rows {ℓ} :
    {A : Type ℓ}
    → (A → Result (Option Instrument) CatalogError)
    → List A
    → Result (List Instrument) CatalogError
page_rows row [] = ok []
page_rows row (item ∷ items) = do
  made ← row item
  rest ← page_rows row items
  ok (elim made [ none ↦ rest | some i ↦ i ∷ rest ])

abbrev pub show_bool : Bool → Text
show_bool true = text "true"
show_bool false = text "false"

module _ {D : Type 0} (w : WireDecimals D) (wide : ℕ → Bool) where
  unfoldable pub parse_bybit_page : Result BybitEnvelope Text → Result BybitPage CatalogError
  parse_bybit_page body = do
    envelope ← from_json bybit body
    refuse_if (not (is_number 0 envelope.ret_code)) (
        invalid_payload bybit (
          text "endpoint returned code "
          ++ show_int envelope.ret_code
          ++ text ": "
          ++ envelope.ret_msg))
    result ← or_missing bybit (text "missing result") envelope.result
    refuse_if (not (result.category == text "linear"))
        (invalid_payload bybit (text "expected linear category, got " ++ result.category))
    instruments ← page_rows (bybit_instrument w wide) result.list
    ok (record { instruments = instruments; next_page_cursor = result.next_page_cursor })

  unfoldable pub parse_binance_catalog :
      Result (List BinanceInstrument) Text → Result Instruments CatalogError
  parse_binance_catalog body = do
    symbols ← from_json binance body
    collect_rows (binance_instrument w wide) [] symbols

  unfoldable pub parse_okx_catalog : Result OkxEnvelope Text → Result Instruments CatalogError
  parse_okx_catalog body = do
    envelope ← from_json okx body
    refuse_if (not (envelope.code == text "0")) (
        invalid_payload okx
          (text "endpoint returned code " ++ envelope.code ++ text ": " ++ envelope.msg))
    collect_rows (okx_instrument w wide) [] envelope.data_rows

  unfoldable pub parse_kucoin_catalog : Result KucoinEnvelope Text → Result Instruments CatalogError
  parse_kucoin_catalog body = do
    envelope ← from_json kucoin body
    refuse_if (not (envelope.code == text "200000"))
        (invalid_payload kucoin (text "endpoint returned code " ++ envelope.code))
    items ← or_missing kucoin (text "missing data") envelope.data_rows
    collect_rows (kucoin_instrument w wide) [] (into_vec items)

  unfoldable pub parse_mexc_catalog : Result MexcEnvelope Text → Result Instruments CatalogError
  parse_mexc_catalog body = do
    envelope ← from_json mexc body
    refuse_if (not envelope.success || not (is_number 0 envelope.code)) (
        invalid_payload mexc (
          text "endpoint returned success="
          ++ show_bool envelope.success
          ++ text " code="
          ++ show_int envelope.code))
    items ← or_missing mexc (text "missing data") envelope.data_rows
    collect_rows (mexc_instrument w wide) [] (into_vec items)

  unfoldable pub parse_bingx_catalog : Result BingxEnvelope Text → Result Instruments CatalogError
  parse_bingx_catalog body = do
    envelope ← from_json bingx body
    refuse_if (not (is_number 0 envelope.code)) (
        invalid_payload bingx
          (text "endpoint returned code " ++ show_int envelope.code ++ text ": " ++ envelope.msg))
    collect_rows (bingx_instrument w wide) [] envelope.data_rows

abbrev pub bybit_max_pages : ℕ
bybit_max_pages = 10_000

unfoldable pub insert_all : Instruments → List Instrument → Result Instruments CatalogError
insert_all m [] = ok m
insert_all m (i ∷ is) = insert_unique m i >>= λ m'. insert_all m' is

-- `nonempty`.
abbrev pub nonempty : Text → Option Text
nonempty s = if is_empty s then none else some s

module _ (page : Option Text → Result BybitPage CatalogError) where
  -- The first step of a turn: the cursor counts as requested, once.
  unfoldable pub request_cursor : Option Text → List Text → Result (List Text) CatalogError
  request_cursor none requested = ok requested
  request_cursor (some current) requested =
      if contains current requested
      then err (repeated_cursor bybit current)
      else ok (Set.insert current requested)

  abbrev pub is_cursor : Option Text → Text → Bool
  is_cursor none next = false
  is_cursor (some current) next = current == next

  -- The loop: turns left, cursor, cursors requested, instruments.
  unfoldable pub fetch_bybit_pages :
      ℕ → Option Text → List Text → Instruments → Result Instruments CatalogError
  fetch_bybit_pages zero cursor requested m = err (pagination_limit bybit bybit_max_pages)
  fetch_bybit_pages (suc turns) cursor requested m = do
    requested' ← request_cursor cursor requested
    p ← page cursor
    m' ← insert_all m p.instruments
    elim (is_empty p.next_page_cursor) [
      | true ↦ ok m'
      | false ↦
          elim (is_cursor cursor p.next_page_cursor || contains p.next_page_cursor requested') [
            | true ↦ err (repeated_cursor bybit p.next_page_cursor)
            | false ↦ fetch_bybit_pages turns (some p.next_page_cursor) requested' m'
          ]
    ]

  unfoldable pub fetch_bybit_catalog : Result Instruments CatalogError
  fetch_bybit_catalog = fetch_bybit_pages bybit_max_pages none [] []
