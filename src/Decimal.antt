-- ===== src/Decimal.antt =====
-- Python's decimals: the operations, and the laws that the program's parts use.
mod Defs
mod Rounding
mod Signs
mod Order
mod Difference
mod Margin
mod Tests
unfoldable pub use Defs.*
pub use Signs.{
  Sign, plus, minus, null, sign, flip, times, is_plus, is_minus, is_null, sign-neg, sign-abs,
  sign-mul, sign-div, sign-add_plus, sign-add_minus, sign-add_null, sign-add_null_right,
}
pub use Order.*
pub use Margin.{lt-margin}
pub use Difference.{is_plus-sub, is_minus-sub, zero-add_dec, sign-add-neg}
