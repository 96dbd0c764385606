-- ===== src/Auth/Totp.antt =====
-- internal/auth/totp.go: time-based one-time codes (RFC 6238) and backup codes.
use aegis_hosting_control_pa.Base.{
  ℕ, zero, suc, ◌+◌, ◌-◌, ◌*◌, ◌/◌, ◌%◌, ◌^◌, String, Bool, true, false, Option, none, some, List,
  [], ◌∷◌, ◌==◌, same, if◌then◌else◌, trim_space, char_of, append,
}
use Prim.Native.String.{len}
use Prim.Native.Nat.{bit_and}

abbrev pub totp_digits : ℕ
totp_digits = 6

-- 30 seconds, in nanoseconds.
abbrev pub totp_period : ℕ
totp_period = 30 * 1_000_000_000

-- What stands outside the program: base32 of a secret (after ToUpper and TrimSpace; `none` is a
-- decoding error), and HMAC-SHA1 of eight bytes under a key.
pub record Mac : Type 0 where
  pub decode_secret : String → Option (List ℕ)
  pub hmac_sha1 : List ℕ → List ℕ → List ℕ

-- sum[i]
abbrev byte_at : List ℕ → ℕ → ℕ
byte_at [] i = 0
byte_at (b ∷ bs) zero = b
byte_at (b ∷ bs) (suc i) = byte_at bs i

abbrev last_byte : List ℕ → ℕ
last_byte [] = 0
last_byte (b ∷ []) = b
last_byte (_ ∷ c ∷ bs) = last_byte (c ∷ bs)

-- binary.BigEndian.PutUint64
be_bytes : ℕ → ℕ → List ℕ
be_bytes zero v = []
be_bytes (suc n) v = (v / 256 ^ n % 256) ∷ be_bytes n v

-- The dynamic truncation of RFC 4226: bytes of the sum are below 256, so the four shifted bytes do
-- not overlap and `|` is their sum.
truncate : List ℕ → ℕ
truncate sum =
    let offset = bit_and (last_byte sum) 0x0f in
    bit_and (byte_at sum offset) 0x7f * 2 ^ 24
    + byte_at sum (offset + 1) * 2 ^ 16
    + byte_at sum (offset + 2) * 2 ^ 8
    + byte_at sum (offset + 3)

-- `fmt.Sprintf("%0*d", digits, n)` for n < 10 ^ digits.
zero_padded : ℕ → ℕ → String
zero_padded zero n = ""
zero_padded (suc d) n = append (char_of "0123456789" (n / 10 ^ d % 10)) (zero_padded d n)

unfoldable pub totp_code_at : Mac → String → ℕ → Option String
unfolding be_bytes truncate zero_padded
totp_code_at m secret t = elim (m.decode_secret secret) [
  | none ↦ none
  | some key ↦
      let counter = t / 1_000_000_000 / 30 in
      let sum = m.hmac_sha1 key (be_bytes 8 counter) in
      some (zero_padded totp_digits (truncate sum % 10 ^ totp_digits))
]

-- subtle.ConstantTimeCompare is equality.
abbrev accepts : Option String → String → Bool → Bool
accepts none code rest = false
accepts (some want) code rest = if same want code then true else rest

-- The loop over skew = -1, 0, 1: a secret that does not decode ends it.
unfoldable pub validate_totp_code : Mac → ℕ → String → String → Bool
validate_totp_code m now secret raw =
    let code = trim_space raw in
    if len code == totp_digits
    then accepts (totp_code_at m secret (now - totp_period)) code (
        accepts (totp_code_at m secret now) code
          (accepts (totp_code_at m secret (now + totp_period)) code false))
    else false

abbrev pub backup_code_alphabet : String
backup_code_alphabet = "ABCDEFGHJKMNPQRSTUVWXYZ23456789"

-- One code from ten random bytes; j counts up from 0.
backup_code_from : ℕ → List ℕ → String
backup_code_from j [] = ""
backup_code_from j (b ∷ raw) = append (if j == 5 then "-" else "") (
    append (char_of backup_code_alphabet (b % len backup_code_alphabet))
      (backup_code_from (j + 1) raw))

unfoldable pub backup_code : List ℕ → String
unfolding backup_code_from
backup_code raw = backup_code_from 0 raw

-- `GenerateBackupCodes`: `none` where a read of crypto/rand fails.
unfoldable pub generate_backup_codes : List (Option (List ℕ)) → Option (List String)
generate_backup_codes [] = some []
generate_backup_codes (none ∷ _) = none
generate_backup_codes (some raw ∷ more) = elim (generate_backup_codes more) [
  | none ↦ none
  | some codes ↦ some (backup_code raw ∷ codes)
]
