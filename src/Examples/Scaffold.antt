-- ===== src/Examples/Scaffold.antt =====
-- Tests of the names of a new slice.
use self_learning_trading_ag.Base.{
  ◌≡◌, refl, true, some, text, text_eq, lower, upper, lower_code, upper_code,
}
use self_learning_trading_ag.Parse.Splits.{split_on, push}
use self_learning_trading_ag.Parse.Numbers.{after_prefix, contains}
use self_learning_trading_ag.Scaffold.{
  capitalize, join_texts, pascal, known_name, words_from, words, is_stop_word, first_word,
  guess_slice_name, is_snake_rest, is_snake_case,
}

-- Named by the tests.
scaffold : Unit {0}
unfolding text_eq lower upper lower_code upper_code split_on push after_prefix contains capitalize
    join_texts pascal known_name words_from words is_stop_word first_word guess_slice_name
    is_snake_rest is_snake_case
scaffold = tt

pascal_test : pascal (text "order_book") ≡ text "OrderBook"
unfolding scaffold
pascal_test = refl

known_test : guess_slice_name (text "Social media SENTIMENT scoring") ≡ some (text "sentiment")
unfolding scaffold
known_test = refl

first_word_test : guess_slice_name (text "via the Order execution") ≡ some (text "order")
unfolding scaffold
first_word_test = refl

snake_test : is_snake_case (text "order_book2") ≡ true
unfolding scaffold
snake_test = refl
