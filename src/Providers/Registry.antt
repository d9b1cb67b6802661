-- ===== src/Providers/Registry.antt =====
-- app/infrastructure/providers/registry.py, and the entries of
-- app/modules/marketdata/infrastructure/providers/registry.py. A factory is what it builds.
pub mod Laws
use self_learning_trading_ag.Base.{
  ℕ, ◌≡◌, refl, Bool, true, false, ◌&&◌, ◌||◌, Option, none, some, List, [], ◌∷◌, ◌++◌, Text, text,
  text_eq, Except, ok, raise, ltb, ◌==◌, if◌then◌else◌,
}

-- `s <= t` on texts.
unfoldable pub text_le : Text → Text → Bool
text_le [] t = true
text_le (c ∷ s) [] = false
text_le (c ∷ s) (d ∷ t) = let rest = text_le s t in if c == d then rest else ltb c d

-- `sorted`
unfoldable pub insert : Text → List Text → List Text
insert x [] = x ∷ []
insert x (y ∷ ys) = let rest = insert x ys in if text_le x y then x ∷ (y ∷ ys) else y ∷ rest

unfoldable pub sorted : List Text → List Text
sorted [] = []
sorted (x ∷ xs) = insert x (sorted xs)

-- Whether a list has a text.
unfoldable pub is_listed : Text → List Text → Bool
is_listed x [] = false
is_listed x (y ∷ ys) = text_eq y x || is_listed x ys

-- `UnknownProviderError`, with the names that its message lists.
pub record UnknownProvider : Type 0 where
  pub capability : Text
  pub provider : Text
  pub available : List Text

-- `_factories`, in the order of the first registrations.
abbrev pub Factories : Type 0 → Type 0
Factories A = List ((Text × Text) × A)

unfoldable pub is_entry : (capability provider : Text) → (Text × Text) → Bool
is_entry capability provider (c, p) = text_eq c capability && text_eq p provider

module _ {A : Type 0} where
  -- `register`
  unfoldable pub register_factory : (capability provider : Text) → A → Factories A → Factories A
  register_factory capability provider a [] = ((capability, provider), a) ∷ []
  register_factory capability provider a ((k, b) ∷ rest) =
      let others = register_factory capability provider a rest in
      if is_entry capability provider k then (k, a) ∷ rest else (k, b) ∷ others

  unfoldable pub find_factory : (capability provider : Text) → Factories A → Option A
  find_factory capability provider [] = none
  find_factory capability provider ((k, a) ∷ rest) =
      if is_entry capability provider k then some a else find_factory capability provider rest

  -- The providers of a capability, as they were registered.
  unfoldable pub names : Text → Factories A → List Text
  names capability [] = []
  names capability (((c, p), a) ∷ rest) =
      let others = names capability rest in if text_eq c capability then p ∷ others else others

  -- `providers`
  unfoldable pub providers : Text → Factories A → List Text
  providers capability f = sorted (names capability f)

  -- The capabilities, each once.
  unfoldable pub capability_set : Factories A → List Text
  capability_set [] = []
  capability_set (((c, p), a) ∷ rest) =
      let others = capability_set rest in if is_listed c others then others else c ∷ others

  -- `capabilities`
  unfoldable pub capabilities : Factories A → List Text
  capabilities f = sorted (capability_set f)

  -- `create`
  unfoldable pub create_provider :
      (capability provider : Text) → Factories A → Except UnknownProvider A
  create_provider capability provider f = elim (find_factory capability provider f) [
    | some a ↦ ok a
    | none ↦ raise (record {
      capability = capability;
      provider = provider;
      available = providers capability f;
    })
  ]

-- The vendors of market data.
pub data Vendor : Type 0 where
  binance kraken twelvedata yahoo : Vendor

-- `register_market_data_providers`
unfoldable pub register_market_data : Factories Vendor → Factories Vendor
register_market_data f = register_factory (text "market_data") (text "yahoo") yahoo (
    register_factory (text "market_data") (text "twelvedata") twelvedata (
      register_factory (text "market_data") (text "kraken") kraken
        (register_factory (text "market_data") (text "binance") binance f)))

-- `MarketDataSourceFactory.__connect__`
unfoldable pub connect_market_data :
    Text → Factories Vendor → Except UnknownProvider Vendor × Factories Vendor
connect_market_data provider f =
    let f' = register_market_data f in (create_provider (text "market_data") provider f', f')
