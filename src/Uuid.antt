-- ===== src/Uuid.antt =====
-- The text of a UUID, `str(uuid)`: 32 hexadecimal digits in groups of 8, 4, 4, 4 and 12.
use Prim.Native.String.{[], slice}
use miniwallet.Base.{ℕ, zero, suc, String, ◌<>◌, ◌+◌, ◌/◌, ◌%◌, ◌^◌, ◌≡◌, refl}

hex_digit : ℕ → String
hex_digit n = slice "0123456789abcdef" n (n + 1)

-- The last `k` hexadecimal digits of a number.
hex : ℕ → ℕ → String
unfolding hex_digit
hex zero n = []
hex (suc k) n = hex k (n / 16) <> hex_digit (n % 16)

unfoldable pub str_uuid : ℕ → String
unfolding hex
str_uuid n =
    hex 8 (n / 2 ^ 96)
    <> "-"
    <> hex 4 (n / 2 ^ 80)
    <> "-"
    <> hex 4 (n / 2 ^ 64)
    <> "-"
    <> hex 4 (n / 2 ^ 48)
    <> "-"
    <> hex 12 n

str_uuid_sample : str_uuid 18 ≡ "00000000-0000-0000-0000-000000000012"
unfolding str_uuid
str_uuid_sample = refl
