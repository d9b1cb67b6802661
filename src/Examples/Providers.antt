-- ===== src/Examples/Providers.antt =====
-- Tests and witnesses of the provider registry.
use self_learning_trading_ag.Base.{
  ◌≡◌, refl, some, [], ◌∷◌, text, text_eq, raise, if◌then◌else◌, ok,
}
use self_learning_trading_ag.Providers.Registry.{
  text_le, insert, sorted, Factories, is_entry, register_factory, find_factory, names, providers,
  create_provider, Vendor, yahoo, register_market_data, connect_market_data,
}
use self_learning_trading_ag.Providers.Registry.Laws.{Created, create_provider-register_factory}

unknown_vendor :
    (connect_market_data (text "coinbase") []).0
    ≡ raise (record {
      capability = text "market_data";
      provider = text "coinbase";
      available = text "binance" ∷ (text "kraken" ∷ (text "twelvedata" ∷ (text "yahoo" ∷ [])));
    })
unfolding connect_market_data register_market_data register_factory is_entry create_provider
    find_factory providers names sorted insert text_le text_eq
unknown_vendor = refl

abbrev vendors : Factories Vendor
vendors = register_market_data []

create_provider-register_factory_example :
    (find_factory
        (text "market_data")
        (text "kraken")
        (register_factory (text "market_data") (text "kraken") yahoo vendors)
      ≡ (if is_entry (text "market_data") (text "kraken") (text "market_data", text "kraken")
          then some yahoo
          else find_factory (text "market_data") (text "kraken") vendors))
    × (create_provider
          (text "market_data")
          (text "kraken")
          (register_factory (text "market_data") (text "kraken") yahoo vendors)
        ≡ ok yahoo)
    × Created
        (text "market_data")
        (text "kraken")
        (register_factory (text "market_data") (text "kraken") yahoo vendors)
create_provider-register_factory_example =
    create_provider-register_factory (text "market_data") (text "kraken") (text "market_data")
      (text "kraken") yahoo vendors
