-- ===== src/Workers.antt =====
-- app/workers: the loop that runs rounds until the app stops getting better.
pub mod Loop
pub mod Plateau
pub mod Step
