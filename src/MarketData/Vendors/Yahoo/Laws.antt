-- ===== src/MarketData/Vendors/Yahoo/Laws.antt =====
-- The candles of a chart, row by row.
use self_learning_trading_ag.Base.{
  ◌≤◌, ◌≡◌, inl, inr, none, some, List, [], ◌∷◌, Text, text, Except, ok, raise, length, arith,
  Option-cases,
}
use self_learning_trading_ag.Int.{ℤ}
use self_learning_trading_ag.Core.Errors.{DomainError}
use self_learning_trading_ag.MarketData.Entities.{Symbol, Timeframe, Candle}
use self_learning_trading_ag.MarketData.Vendors.{malformed, from_timestamp, decimal_of_text}
use self_learning_trading_ag.MarketData.Vendors.Laws.{IsOf}
use self_learning_trading_ag.MarketData.Vendors.Yahoo.{
  yahoo, Cell, YahooQuoteSeries, YahooChartResult, QuoteRow, prices, volume_of, priced_candle,
  row_to_candle, rows_to_candles, some_candles, series_rows, first_series, chart_candles,
}

module _ (symbol : Symbol) (timeframe : Timeframe) (exchange : Text) where
  -- A candle with the time and the amounts of a row.
  pub record Normalizes (t : ℤ) (o h l c : Text) (v : Cell) (candle : Candle) : Type 0 where
    pub time : from_timestamp t ≡ some candle.opened_at
    pub open_amount : decimal_of_text o ≡ some candle.open_price
    pub high_amount : decimal_of_text h ≡ some candle.high
    pub low_amount : decimal_of_text l ≡ some candle.low
    pub close_amount : decimal_of_text c ≡ some candle.close
    pub volume_amount : volume_of v ≡ some candle.volume
    pub origin : IsOf symbol timeframe exchange candle

  priced_candle-Normalizes :
      (t : ℤ) (o h l c : Text) (v : Cell) (candle : Candle)
      → priced_candle symbol timeframe exchange t o h l c v ≡ some candle
      → Normalizes t o h l c v candle
  unfolding priced_candle
  priced_candle-Normalizes t o h l c v candle e = record {
    time = ground (arith, e);
    open_amount = ground (arith, e);
    high_amount = ground (arith, e);
    low_amount = ground (arith, e);
    close_amount = ground (arith, e);
    volume_amount = ground (arith, e);
    origin = ground (arith, e);
  }

  -- The candles of the rows with four prices, in their order; other rows have none.
  pub data Mapped : List QuoteRow → List Candle → Type 0 where
    no_row : Mapped [] []
    padding :
        {r : QuoteRow} {rs : List QuoteRow} {cs : List Candle}
        → prices r ≡ none
        → Mapped rs cs
        → Mapped (r ∷ rs) cs
    complete :
        {r : QuoteRow} {rs : List QuoteRow} {cs : List Candle} (o h l c : Text) {candle : Candle}
        → prices r ≡ some (o, h, l, c)
        → Normalizes r.opened_at o h l c r.volume_cell candle
        → Mapped rs cs
        → Mapped (r ∷ rs) (candle ∷ cs)

  -- A row with four prices, one of the row's values out of range.
  pub data Broken : List QuoteRow → Type 0 where
    here :
        {r : QuoteRow} {rs : List QuoteRow} (o h l c : Text)
        → prices r ≡ some (o, h, l, c)
        → priced_candle symbol timeframe exchange r.opened_at o h l c r.volume_cell ≡ none
        → Broken (r ∷ rs)
    later : {r : QuoteRow} {rs : List QuoteRow} → Broken rs → Broken (r ∷ rs)

  abbrev pub not_normalized : DomainError
  not_normalized = malformed exchange (text "yahoo candle normalization failed")

  pub data RowsMapped (rs : List QuoteRow) : Except DomainError (List Candle) → Type 0 where
    all_mapped : {cs : List Candle} → Mapped rs cs → RowsMapped rs (ok cs)
    one_broken : Broken rs → RowsMapped rs (raise not_normalized)

  rows_to_candles-RowsMapped :
      (rs : List QuoteRow) → RowsMapped rs (rows_to_candles symbol timeframe exchange rs)
  unfolding rows_to_candles row_to_candle
  rows_to_candles-RowsMapped [] = all_mapped no_row
  rows_to_candles-RowsMapped (r ∷ rs) = elim (Option-cases (prices r)) [
    | inl e ↦
        rw (e, rows_to_candles, row_to_candle)
          (skipped e (rows_to_candles symbol timeframe exchange rs) (rows_to_candles-RowsMapped rs))
    | inr ((o, h, l, c), e) ↦
        elim (Option-cases
          (priced_candle symbol timeframe exchange r.opened_at o h l c r.volume_cell)) [
            | inl q ↦ rw (e, rows_to_candles, row_to_candle, q) (one_broken (here o h l c e q))
            | inr (candle, q) ↦
                rw (e, rows_to_candles, row_to_candle, q)
                  (joined o h l c e candle
                    (priced_candle-Normalizes r.opened_at o h l c r.volume_cell candle q)
                    (rows_to_candles symbol timeframe exchange rs) (rows_to_candles-RowsMapped rs))
          ]
  ]
    where
      skipped :
          prices r ≡ none
          → (x : Except DomainError (List Candle)) → RowsMapped rs x
          → RowsMapped (r ∷ rs) (elim x [ raise e ↦ raise e | ok cs ↦ ok cs ])
      skipped e (ok cs) (all_mapped m) = all_mapped (padding e m)
      skipped e (raise _) (one_broken b) = one_broken (later b)

      joined :
          (o h l c : Text)
          → prices r ≡ some (o, h, l, c)
          → (candle : Candle) → Normalizes r.opened_at o h l c r.volume_cell candle
          → (x : Except DomainError (List Candle)) → RowsMapped rs x
          → RowsMapped (r ∷ rs) (elim x [ raise e ↦ raise e | ok cs ↦ ok (candle ∷ cs) ])
      joined o h l c e candle n (ok cs) (all_mapped m) = all_mapped (complete o h l c e n m)
      joined o h l c e candle n (raise _) (one_broken b) = one_broken (later b)

  -- What becomes of a chart.
  pub data Charted (chart : YahooChartResult) : Except DomainError (List Candle) → Type 0 where
    without_series :
        chart.quote ≡ []
        → Charted chart (raise (malformed yahoo (text "yahoo chart carried no quote series")))
    unusable :
        (s : YahooQuoteSeries)
        → first_series chart.quote ≡ some s
        → Mapped (series_rows chart.timestamp s) []
        → Charted chart (raise (malformed yahoo (text "yahoo chart returned no usable candles")))
    broken :
        (s : YahooQuoteSeries)
        → first_series chart.quote ≡ some s
        → Broken (series_rows chart.timestamp s)
        → Charted chart (raise not_normalized)
    usable :
        (s : YahooQuoteSeries) {cs : List Candle}
        → first_series chart.quote ≡ some s
        → Mapped (series_rows chart.timestamp s) cs
        → 1 ≤ length cs
        → Charted chart (ok cs)

  first_series-none : (ss : List YahooQuoteSeries) → first_series ss ≡ none → ss ≡ []
  unfolding first_series
  first_series-none ss e = ground (arith, e)

  -- A chart with a quote series gives the candles of the rows of its first series that have four
  -- prices, in their order, each with the row's time and amounts, if there is one at least. It is
  -- an error if there is none, if there is no series, or if a value of such a row is out of range.
  pub chart_candles-Charted :
      (chart : YahooChartResult) → Charted chart (chart_candles chart symbol timeframe exchange)
  unfolding chart_candles some_candles
  chart_candles-Charted chart = elim (Option-cases (first_series chart.quote)) [
    | inl e ↦ rw (e, chart_candles) (without_series (first_series-none chart.quote e))
    | inr (s, e) ↦
        rw (e, chart_candles)
          (judged s e _ (rows_to_candles-RowsMapped (series_rows chart.timestamp s)))
  ]
    where
      judged :
          (s : YahooQuoteSeries)
          → first_series chart.quote ≡ some s
          → (x : Except DomainError (List Candle)) → RowsMapped (series_rows chart.timestamp s) x
          → Charted chart (some_candles x)
      judged s e (raise _) (one_broken b) = broken s e b
      judged s e (ok []) (all_mapped m) = unusable s e m
      judged s e (ok (c ∷ cs)) (all_mapped m) = usable s e m (omega arith)
