-- ===== src/App/Hello.antt =====
-- main.c, `hello_handler`: the page of the example's server.
use newt_esp.Base.{
  ℕ, ◌/◌, ◌≤◌, ◌≡◌, ◌++◌, take, length, length-append, Bytes, codes, decimal, length-decimal, arith,
  take-of_le,
}

-- The chip models that the handler names.
pub data Chip : Type 0 where
  esp32 esp32s2 esp32s3 esp32c3 esp32c6 other_chip : Chip

unfoldable pub chip_name : Chip → Bytes
chip_name esp32 = codes "esp32"
chip_name esp32s2 = codes "esp32s2"
chip_name esp32s3 = codes "esp32s3"
chip_name esp32c3 = codes "esp32c3"
chip_name esp32c6 = codes "esp32c6"
chip_name other_chip = codes "unknown"

unfoldable pub hello_text : Chip → ℕ → Bytes
hello_text chip uptime_us =
    codes "{\"chip\":\""
    ++ (chip_name chip ++ (codes "\",\"uptime\":" ++ (decimal (uptime_us / 1000000) ++ codes "}")))

-- `hello_handler`: what is sent, the text as snprintf leaves it in 128 bytes.
unfoldable pub hello_handler : Chip → ℕ → Bytes
hello_handler chip uptime_us = take 127 (hello_text chip uptime_us)

length-chip_name : (chip : Chip) → length (chip_name chip) ≤ 7
unfolding chip_name
length-chip_name chip = grind arith

length-hello_text : (chip : Chip) (uptime_us : ℕ) → length (hello_text chip uptime_us) ≤ 127
unfolding hello_text
length-hello_text chip uptime_us = omega (
  arith,
  length-chip_name chip,
  length-append (chip_name chip)
      (codes "\",\"uptime\":" ++ (decimal (uptime_us / 1000000) ++ codes "}")),
  length-append (decimal (uptime_us / 1000000)) (codes "}"),
  length-decimal (uptime_us / 1000000),
)

-- The page is never cut off: whatever the chip and the uptime, the whole text is sent.
pub hello_handler_lem :
    (chip : Chip) (uptime_us : ℕ) → hello_handler chip uptime_us ≡ hello_text chip uptime_us
unfolding hello_handler
hello_handler_lem chip uptime_us =
    take-of_le 127 (hello_text chip uptime_us) (length-hello_text chip uptime_us)
