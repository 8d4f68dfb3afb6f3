-- ===== src/Witnesses/Decimals.antt =====
-- A column of six decimals.

use csv_product_uploader.Js.Number.{Number, round, mul, div, of_ℕ}

-- The nearest number of millionths.
abbrev pub six_places : Number → Number
six_places x = div (round (mul x (of_ℕ 1000000))) (of_ℕ 1000000)
