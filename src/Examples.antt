-- ===== src/Examples.antt =====
-- The theorems at concrete inputs, by the part of the program that they are about; those of the
-- orders stand with the orders.
mod Money
mod Draws
mod Parts
mod Routes
mod Sessions
