-- ===== src/Tests/Catalog.antt =====
-- src/catalog.rs: a catalog that reads one page of Bybit with one instrument. Decimals are whole
-- numbers here, and no letter beyond ASCII is known.
use market_stream_gateway.Prelude.{
  ℕ, ◌≡◌, ◌↔◌, refl, ap, ◌∙◌, Bool, true, false, List, [], ◌∷◌, none, some, arith, ok, err, Result,
  ltb, eqb, pos, if◌then◌else◌, text_order,
}
use market_stream_gateway.Map
use market_stream_gateway.Map.{lookup, Distinct}
use market_stream_gateway.Set.{contains}
use market_stream_gateway.Text.{
  Text, text, to_string, is_whitespace, is_ascii_alphanumeric, to_ascii_uppercase,
}
use market_stream_gateway.Domain.Identity.{
  SubscriptionKey, provider_order, bybit, linear_perpetual, ticker, instrument_id,
}
use market_stream_gateway.Domain.Symbol.{normalize_symbol, trim}
use market_stream_gateway.Domain.Trimming.{IsNormalOf, normalize_symbol_lem}
use market_stream_gateway.Map.Ordered.{insert_ordered}
use market_stream_gateway.Catalog.Instrument.{
  Instrument, CatalogError, live, capabilities, supports,
}
use market_stream_gateway.Catalog.Wire.{
  WireScalar, WireDecimals, string, number, scalar_text, parse_u64, exact_symbol, exact_asset,
  positive_decimal, optional_positive_decimal, optional_timestamp_ms,
}
use market_stream_gateway.Catalog.Rows.Bybit.{
  BybitInstrument, bybit_instrument, bybit_row, leverage_of,
}
use market_stream_gateway.Catalog.Pages.{
  Instruments, BybitEnvelope, collect_rows, page_rows, insert_all, insert_unique, parse_bybit_page,
  fetch_bybit_pages, fetch_bybit_catalog, request_cursor,
}
use market_stream_gateway.Catalog.Fetch.{Answers, bybit_page, fetch_provider}
use market_stream_gateway.Catalog.Listing.{Lists}
use market_stream_gateway.Catalog.Reading.{
  IsListing, Chain, collect_rows_lem, fetch_bybit_catalog-Chain, fetch_provider-IsListing,
}
use market_stream_gateway.Catalog.Store.{
  Catalog, ProviderSnapshot, new_catalog, is_enabled, refresh_provider, validate_subscription,
  get_instrument,
}
use market_stream_gateway.Catalog.Refresh.{
  Inv, Reach, fresh, next, Outcome, Reach-Inv, refresh_provider-Outcome,
}
use market_stream_gateway.Catalog.Timestamps.{optional_timestamp_ms-to_string}
use market_stream_gateway.Catalog.Validation.{
  validate_subscription_lem, validate_subscription-instrument,
}

abbrev pub no_wide : ℕ → Bool
no_wide c = false

pub no_wide-apart : (c : ℕ) → no_wide c ≡ true → is_whitespace c ≡ false
no_wide-apart c h = cc

abbrev pub whole : WireDecimals ℕ
whole = record {
  decimals = record { from_str = parse_u64; lt = ltb; zero = 0 };
  from_scientific = λ s. none;
  show = to_string;
  power = λ n. 1;
}

abbrev pub btc : Text
btc = 66 ∷ 84 ∷ 67 ∷ []

abbrev pub usdt : Text
usdt = 85 ∷ 83 ∷ 68 ∷ 84 ∷ []

abbrev pub five : Text
five = 53 ∷ []

abbrev btc_row : BybitInstrument
btc_row = record {
  symbol = btc;
  contract_type = text "LinearPerpetual";
  status = text "Trading";
  base_coin = btc;
  quote_coin = usdt;
  settle_coin = usdt;
  launch_time = some (number five);
  delivery_time = none;
  price_filter = record { tick_size = string five };
  lot_size_filter = record {
    qty_step = string five;
    min_order_qty = none;
    min_notional_value = none;
  };
  leverage_filter = none;
}

abbrev pub btc_instrument : Instrument
btc_instrument = record {
  id = instrument_id bybit linear_perpetual btc;
  symbol = btc;
  provider = bybit;
  market = linear_perpetual;
  base_asset = btc;
  quote_asset = usdt;
  settle_asset = usdt;
  status = live;
  venue_status = text "Trading";
  tick_size = five;
  quantity_step = five;
  min_order_quantity = none;
  min_notional = none;
  contract_size = none;
  contract_size_asset = none;
  max_leverage = none;
  listing_time_ms = some 5;
  expiry_time_ms = none;
  capabilities = capabilities bybit;
}

abbrev one_listing : Instruments
one_listing = (btc, btc_instrument) ∷ []

abbrev one_page : BybitEnvelope
one_page = record {
  ret_code = pos 0;
  ret_msg = [];
  result = some (record { category = text "linear"; next_page_cursor = []; list = btc_row ∷ [] });
}

abbrev pub answers : Answers
answers = record {
  bybit_body = λ cursor. ok (ok one_page);
  binance_body = ok (err []);
  okx_body = ok (err []);
  kucoin_body = ok (err []);
  mexc_body = ok (err []);
  bingx_body = ok (err []);
}

collect_rows_lem_example :
    (collect_rows (bybit_instrument whole no_wide) [] (btc_row ∷ []) ≡ ok one_listing) ↔ (
      (is : List Instrument) × (page_rows (bybit_instrument whole no_wide) (btc_row ∷ []) ≡ ok is)
      × Lists is one_listing)
collect_rows_lem_example =
    collect_rows_lem (bybit_instrument whole no_wide) (btc_row ∷ []) one_listing

listing_lem : fetch_bybit_catalog (bybit_page whole no_wide answers) ≡ ok one_listing
unfolding fetch_bybit_catalog fetch_bybit_pages request_cursor insert_all insert_unique lookup
    insert_ordered bybit_page parse_bybit_page page_rows bybit_instrument bybit_row leverage_of
    exact_symbol exact_asset positive_decimal optional_positive_decimal optional_timestamp_ms
    scalar_text parse_u64 normalize_symbol trim is_whitespace is_ascii_alphanumeric
    to_ascii_uppercase text
listing_lem = refl

fetched_lem : fetch_provider whole no_wide answers bybit ≡ ok one_listing
unfolding fetch_provider
fetched_lem = listing_lem

fetch_bybit_catalog-Chain_example :
    (is : List Instrument) × Chain (bybit_page whole no_wide answers) none is × Lists is one_listing
fetch_bybit_catalog-Chain_example =
    fetch_bybit_catalog-Chain (bybit_page whole no_wide answers) one_listing listing_lem

fetch_provider-IsListing_example : IsListing no_wide bybit one_listing
fetch_provider-IsListing_example =
    fetch_provider-IsListing whole no_wide answers bybit one_listing fetched_lem

abbrev pub fresh_catalog : Catalog
fresh_catalog = new_catalog (bybit ∷ [])

abbrev pub read_catalog : Catalog
read_catalog =
    (refresh_provider fresh_catalog bybit 100 200 (fetch_provider whole no_wide answers bybit)).0

pub read-Reach : Reach whole no_wide (bybit ∷ []) read_catalog
read-Reach = next bybit answers 100 200 fresh

Reach-Inv_example : Inv no_wide read_catalog
Reach-Inv_example = Reach-Inv whole no_wide (bybit ∷ []) read_catalog read-Reach

abbrev no_snapshot : ProviderSnapshot
no_snapshot = record {
  instruments = [];
  status = record {
    provider = bybit;
    enabled = is_enabled (bybit ∷ []) bybit;
    instrument_count = 0;
    last_attempt_at_ms = none;
    last_success_at_ms = none;
    last_error = none;
  };
}

no_snapshot_lem : lookup bybit fresh_catalog.providers ≡ some no_snapshot
unfolding new_catalog lookup
no_snapshot_lem = refl

refresh_provider-Outcome_example :
    Outcome fresh_catalog bybit no_snapshot 100 200
      (ok one_listing)
      (refresh_provider fresh_catalog bybit 100 200 (ok one_listing))
refresh_provider-Outcome_example =
    refresh_provider-Outcome fresh_catalog bybit no_snapshot 100 200 no_snapshot_lem
      (ok one_listing)

abbrev pub btc_ticker : SubscriptionKey
btc_ticker = record { provider = bybit; market = linear_perpetual; symbol = btc; channel = ticker }

btc_normal : normalize_symbol no_wide btc ≡ ok btc
unfolding normalize_symbol trim is_whitespace is_ascii_alphanumeric to_ascii_uppercase
btc_normal = refl

abbrev after : Result Instruments CatalogError → Catalog
after fetched = (refresh_provider fresh_catalog bybit 100 200 fetched).0

listed_lem : validate_subscription no_wide (after (ok one_listing)) btc_ticker ≡ ok btc_instrument
unfolding validate_subscription get_instrument is_enabled refresh_provider new_catalog lookup
    Map.insert contains trim is_whitespace supports capabilities
listed_lem = refl

pub validated_lem : validate_subscription no_wide read_catalog btc_ticker ≡ ok btc_instrument
validated_lem =
    ap (λ f. validate_subscription no_wide (after f) btc_ticker) fetched_lem ∙ listed_lem

validate_subscription_lem_example :
    (validate_subscription no_wide read_catalog btc_ticker ≡ ok btc_instrument) ↔ (
      (is_enabled read_catalog.enabled_providers bybit ≡ true)
      × ((s : ProviderSnapshot) × (lookup bybit read_catalog.providers ≡ some s)
          × (lookup btc s.instruments ≡ some btc_instrument))
      × (supports btc_instrument.capabilities ticker ≡ true))
validate_subscription_lem_example =
    validate_subscription_lem no_wide no_wide-apart whole (bybit ∷ []) read_catalog btc_ticker btc
      btc_instrument read-Reach btc_normal

validate_subscription-instrument_example :
    (btc_instrument.provider ≡ bybit)
    × (btc_instrument.symbol ≡ btc)
    × (btc_instrument.id ≡ instrument_id bybit linear_perpetual btc)
validate_subscription-instrument_example =
    validate_subscription-instrument no_wide no_wide-apart whole (bybit ∷ []) read_catalog
      btc_ticker btc btc_instrument read-Reach btc_normal validated_lem

abbrev padded : Text
padded = 32 ∷ 98 ∷ 116 ∷ 99 ∷ 10 ∷ []

normalize_symbol_lem_example :
    (normalize_symbol no_wide padded ≡ ok btc) ↔ IsNormalOf no_wide padded btc
normalize_symbol_lem_example = normalize_symbol_lem no_wide no_wide-apart padded btc

padded_normal : normalize_symbol no_wide padded ≡ ok btc
unfolding normalize_symbol trim is_whitespace is_ascii_alphanumeric to_ascii_uppercase
padded_normal = refl

abbrev later : Text
later = 69 ∷ []

-- Listed last, read first: the map is in the order of the symbols.
in_symbol_order :
    insert_all [] (record btc_instrument { symbol = later } ∷ btc_instrument ∷ [])
    ≡ ok ((btc, btc_instrument) ∷ (later, record btc_instrument { symbol = later }) ∷ [])
unfolding insert_all insert_unique lookup insert_ordered
in_symbol_order = refl

abbrev late : WireScalar
late = number (to_string 1_700_000_000_000)

late_text : scalar_text late ≡ to_string 1_700_000_000_000
unfolding scalar_text
late_text = refl

optional_timestamp_ms-to_string_example :
    optional_timestamp_ms bybit (text "launchTime") (some late)
    ≡ ok (if eqb 1_700_000_000_000 0 then none else some 1_700_000_000_000)
optional_timestamp_ms-to_string_example =
    optional_timestamp_ms-to_string bybit (text "launchTime") 1_700_000_000_000 late late_text
      (omega arith)
