-- ===== src/Catalog/Reading.antt =====
-- src/catalog.rs: what `fetch_provider` gives when it succeeds.
use market_stream_gateway.Prelude.{
  ℕ, Bool, ◌≡◌, ◌↔◌, refl, subst, ◌∙◌, ap, List, [], ◌∷◌, ◌++◌, none, some, Option, Result, ok,
  ◌>>=◌, >>=-eq-ok, All, text_order, arith, Bool-cases, inl, inr, is_empty, zero, suc, ◌||◌, not,
  ◌==◌, is_number, refuse_if->>-eq-ok, All-append, true, false,
}
use market_stream_gateway.Set.{contains}
use market_stream_gateway.Text.{Text, text}
use market_stream_gateway.Map.{Distinct}
use market_stream_gateway.Map.Ordered.{IsAscending, IsAscending-Distinct}
use market_stream_gateway.Domain.Identity.{Provider, bybit, binance, okx, kucoin, mexc, bingx}
use market_stream_gateway.Catalog.Instrument.{Instrument, CatalogError}
use market_stream_gateway.Catalog.Wire.{WireDecimals}
use market_stream_gateway.Catalog.Pages.{
  Instruments, insert_unique, collect_rows, page_rows, insert_all, fetch_bybit_pages, BybitPage,
  from_json, or_missing, parse_bybit_page, fetch_bybit_catalog, request_cursor, is_cursor,
  parse_binance_catalog, parse_okx_catalog, parse_kucoin_catalog, parse_mexc_catalog,
  parse_bingx_catalog, bybit_max_pages, into_vec,
}
use market_stream_gateway.Catalog.Made.{
  IsMade, bybit_instrument-IsMade, binance_instrument-IsMade, okx_instrument-IsMade,
  kucoin_instrument-IsMade, mexc_instrument-IsMade, bingx_instrument-IsMade,
}
use market_stream_gateway.Catalog.Listing.{
  Lists, insert_all-Lists, Lists-insert_all, insert_all-All, collect_rows-insert_all,
  collect_rows-succeeds, page_rows-All,
}
use market_stream_gateway.Catalog.Rows.Bybit.{bybit_instrument}
use market_stream_gateway.Catalog.Rows.Binance.{binance_instrument}
use market_stream_gateway.Catalog.Rows.Okx.{okx_instrument}
use market_stream_gateway.Catalog.Rows.Kucoin.{kucoin_instrument}
use market_stream_gateway.Catalog.Rows.Mexc.{mexc_instrument}
use market_stream_gateway.Catalog.Rows.Bingx.{bingx_instrument}
use market_stream_gateway.Catalog.Fetch.{Answers, bybit_page, fetch_provider}

-- A listing of a provider: its instruments, each once and under its own symbol, in the order of
-- the symbols.
pub record IsListing (wide : ℕ → Bool) (p : Provider) (m : Instruments) : Type 0 where
  pub distinct : Distinct m
  pub ordered : IsAscending m
  pub filed : All (λ e. (e.1.symbol ≡ e.0) × IsMade wide p e.1) m

All-keyed :
    (wide : ℕ → Bool) (p : Provider) (is : List Instrument)
    → All (IsMade wide p) is
    → All (λ i. (i.symbol ≡ i.symbol) × IsMade wide p i) is
All-keyed wide p [] h = tt
All-keyed wide p (i ∷ is) h = ((refl, h.0), All-keyed wide p is h.1)

IsListing-of_insert_all :
    (wide : ℕ → Bool) (p : Provider) (is : List Instrument) (m : Instruments)
    → All (IsMade wide p) is
    → insert_all [] is ≡ ok m
    → IsListing wide p m
IsListing-of_insert_all wide p is m h k =
    let (differ, ascends, found) = insert_all-Lists is m k in
    record {
      distinct = IsAscending-Distinct m ascends;
      ordered = ascends;
      filed = insert_all-All _ is [] m tt (All-keyed wide p is h) k;
    }

module _ {ℓ} {A : Type ℓ} (row : A → Result (Option Instrument) CatalogError) where
  -- The loop over the rows of a listing succeeds with `m` exactly if every row can be read, no two
  -- of the rows that become instruments have the same symbol, and `m` holds exactly these
  -- instruments, each under its symbol and in the order of the symbols.
  pub collect_rows_lem :
      (items : List A) (m : Instruments)
      → (collect_rows row [] items ≡ ok m)
        ↔ ((is : List Instrument) × (page_rows row items ≡ ok is) × Lists is m)
  collect_rows_lem items m = (
    λ h.
        let (is, read, inserted) = collect_rows-insert_all row items [] m h in
        (is, read, insert_all-Lists is m inserted),
    λ (is, read, lists). collect_rows-succeeds row items [] m is read (Lists-insert_all is m lists),
  )

  collect_rows-IsListing :
      (wide : ℕ → Bool) (p : Provider) (items : List A) (m : Instruments)
      → ((item : A) (i : Instrument) → row item ≡ ok (some i) → IsMade wide p i)
      → collect_rows row [] items ≡ ok m
      → IsListing wide p m
  collect_rows-IsListing wide p items m made h =
      let (is, read, inserted) = collect_rows-insert_all row items [] m h in
      IsListing-of_insert_all wide p is m (page_rows-All row (IsMade wide p) made items is read)
        inserted

-- The instruments of the pages from a cursor on, each page naming the next, the last naming none.
pub data Chain (page : Option Text → Result BybitPage CatalogError)
    : Option Text → List Instrument → Type 0 where
  last :
      {cursor : Option Text} {p : BybitPage}
      → page cursor ≡ ok p
      → is_empty p.next_page_cursor ≡ true
      → Chain page cursor p.instruments
  more :
      {cursor : Option Text} {p : BybitPage} {is : List Instrument}
      → page cursor ≡ ok p
      → is_empty p.next_page_cursor ≡ false
      → Chain page (some p.next_page_cursor) is
      → Chain page cursor (p.instruments ++ is)

insert_all-append :
    (is js : List Instrument) (m m' : Instruments)
    → insert_all m is ≡ ok m'
    → insert_all m (is ++ js) ≡ insert_all m' js
unfolding insert_all
insert_all-append [] js m m' h =
    let same : m ≡ m' = ground (arith, h) in ap (λ x. insert_all x js) same
insert_all-append (i ∷ is) js m m' h =
    let first = >>=-eq-ok (insert_unique m i) _ h in
    ap (λ r. r >>= λ x. insert_all x (is ++ js)) first.1
    ∙ insert_all-append is js first.0 m' first.2

module _ (page : Option Text → Result BybitPage CatalogError) where
  pub fetch_bybit_pages-Chain :
      (turns : ℕ) (cursor : Option Text) (requested : List Text) (m m' : Instruments)
      → fetch_bybit_pages page turns cursor requested m ≡ ok m'
      → (is : List Instrument) × Chain page cursor is × (insert_all m is ≡ ok m')
  unfolding fetch_bybit_pages
  fetch_bybit_pages-Chain zero cursor requested m m' h = cc
  fetch_bybit_pages-Chain (suc turns) cursor requested m m' h =
      let asked = >>=-eq-ok (request_cursor page cursor requested) _ h in
      let got = >>=-eq-ok (page cursor) _ asked.2 in
      let added = >>=-eq-ok (insert_all m got.0.instruments) _ got.2 in
      elim (Bool-cases (is_empty got.0.next_page_cursor)) [
        | inl e ↦ (got.0.instruments, last got.1 e, ground (arith, added.1, added.2, e))
        | inr e ↦
            elim (Bool-cases (
              is_cursor page cursor got.0.next_page_cursor
              || contains got.0.next_page_cursor asked.0)) [
                | inl seen ↦ ground (arith, added.2, e, seen)
                | inr new ↦
                    (let rest =
                        fetch_bybit_pages-Chain turns (some got.0.next_page_cursor) asked.0 added.0
                          m' (ground (arith, added.2, e, new)) in
                      (
                        got.0.instruments ++ rest.0,
                        more got.1 e rest.1,
                        insert_all-append got.0.instruments rest.0 m added.0 added.1 ∙ rest.2,
                      ))
              ]
      ]

  pub Chain-All {κ} :
      (P : Instrument → Type κ)
      → ((cursor : Option Text) (p : BybitPage) → page cursor ≡ ok p → All P p.instruments)
      → {cursor : Option Text} {is : List Instrument} → Chain page cursor is
      → All P is
  Chain-All P f (last {cursor} {p} h e) = f cursor p h
  Chain-All P f (more {cursor} {p} {is} h e rest) =
      All-append P p.instruments is (f cursor p h) (Chain-All P f rest)

  -- A listing of Bybit that is fetched holds the instruments of all its pages, from the first,
  -- asked for without a cursor, to the one that names no next cursor, and no others, each under its
  -- symbol and in the order of the symbols; no two of them have the same symbol.
  pub fetch_bybit_catalog-Chain :
      (m : Instruments)
      → fetch_bybit_catalog page ≡ ok m
      → (is : List Instrument) × Chain page none is × Lists is m
  unfolding fetch_bybit_catalog
  fetch_bybit_catalog-Chain m h =
      let (is, chain, inserted) = fetch_bybit_pages-Chain bybit_max_pages none [] [] m h in
      (is, chain, insert_all-Lists is m inserted)

module _ {D : Type 0} (w : WireDecimals D) (wide : ℕ → Bool) (a : Answers) where
  bybit_page-IsMade :
      (cursor : Option Text) (p : BybitPage)
      → bybit_page w wide a cursor ≡ ok p
      → All (IsMade wide bybit) p.instruments
  unfolding bybit_page parse_bybit_page
  bybit_page-IsMade cursor p h =
      let body = >>=-eq-ok (a.bybit_body cursor) _ h in
      let envelope = >>=-eq-ok (from_json bybit body.0) _ body.2 in
      let accepted = refuse_if->>-eq-ok (not (is_number 0 envelope.0.ret_code)) _ _ envelope.2 in
      let result = >>=-eq-ok (or_missing bybit _ envelope.0.result) _ accepted in
      let linear = refuse_if->>-eq-ok (not (result.0.category == text "linear")) _ _ result.2 in
      let rows = >>=-eq-ok (page_rows (bybit_instrument w wide) result.0.list) _ linear in
      let made =
        page_rows-All (bybit_instrument w wide) (IsMade wide bybit) (bybit_instrument-IsMade w wide)
          result.0.list rows.0 rows.1 in
      subst (All (IsMade wide bybit)) {x = rows.0} (ground (arith, rows.2)) made

  -- Whatever the six endpoints answer, the listing that a successful fetch gives for a provider is
  -- in the order of the symbols, has no symbol twice, and every instrument in it stands under its
  -- own symbol, is of that provider, has a symbol in normal form, the id made of these, and the
  -- provider's capabilities.
  pub fetch_provider-IsListing :
      (p : Provider) (m : Instruments) → fetch_provider w wide a p ≡ ok m → IsListing wide p m
  unfolding fetch_provider fetch_bybit_catalog parse_binance_catalog parse_okx_catalog
      parse_kucoin_catalog parse_mexc_catalog parse_bingx_catalog
  fetch_provider-IsListing bybit m h =
      let (is, chain, inserted) =
        fetch_bybit_pages-Chain (bybit_page w wide a) bybit_max_pages none [] [] m h in
      IsListing-of_insert_all wide bybit is m
        (Chain-All (bybit_page w wide a) (IsMade wide bybit) bybit_page-IsMade chain) inserted
  fetch_provider-IsListing binance m h =
      let body = >>=-eq-ok a.binance_body _ h in
      let symbols = >>=-eq-ok (from_json binance body.0) _ body.2 in
      collect_rows-IsListing (binance_instrument w wide) wide binance symbols.0 m
        (binance_instrument-IsMade w wide) symbols.2
  fetch_provider-IsListing okx m h =
      let body = >>=-eq-ok a.okx_body _ h in
      let envelope = >>=-eq-ok (from_json okx body.0) _ body.2 in
      let accepted = refuse_if->>-eq-ok (not (envelope.0.code == text "0")) _ _ envelope.2 in
      collect_rows-IsListing (okx_instrument w wide) wide okx envelope.0.data_rows m
        (okx_instrument-IsMade w wide) accepted
  fetch_provider-IsListing kucoin m h =
      let body = >>=-eq-ok a.kucoin_body _ h in
      let envelope = >>=-eq-ok (from_json kucoin body.0) _ body.2 in
      let accepted = refuse_if->>-eq-ok (not (envelope.0.code == text "200000")) _ _ envelope.2 in
      let items = >>=-eq-ok (or_missing kucoin _ envelope.0.data_rows) _ accepted in
      collect_rows-IsListing (kucoin_instrument w wide) wide kucoin (into_vec items.0) m
        (kucoin_instrument-IsMade w wide) items.2
  fetch_provider-IsListing mexc m h =
      let body = >>=-eq-ok a.mexc_body _ h in
      let envelope = >>=-eq-ok (from_json mexc body.0) _ body.2 in
      let accepted =
        refuse_if->>-eq-ok (not envelope.0.success || not (is_number 0 envelope.0.code)) _ _
          envelope.2 in
      let items = >>=-eq-ok (or_missing mexc _ envelope.0.data_rows) _ accepted in
      collect_rows-IsListing (mexc_instrument w wide) wide mexc (into_vec items.0) m
        (mexc_instrument-IsMade w wide) items.2
  fetch_provider-IsListing bingx m h =
      let body = >>=-eq-ok a.bingx_body _ h in
      let envelope = >>=-eq-ok (from_json bingx body.0) _ body.2 in
      let accepted = refuse_if->>-eq-ok (not (is_number 0 envelope.0.code)) _ _ envelope.2 in
      collect_rows-IsListing (bingx_instrument w wide) wide bingx envelope.0.data_rows m
        (bingx_instrument-IsMade w wide) accepted
