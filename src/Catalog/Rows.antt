-- ===== src/Catalog/Rows.antt =====
-- src/catalog.rs: one row of each venue's listing, as the JSON library reads it, made into an
-- instrument or passed over.
pub mod Bybit
pub mod Binance
pub mod Okx
pub mod Kucoin
pub mod Mexc
pub mod Bingx
